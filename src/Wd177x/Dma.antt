-- ===== src/Wd177x/Dma.antt =====
-- The transfers: how many rounds the loop takes, and what the drive's processor reads.
use ue2_c64u_emulator.Base.{
  ℕ, zero, suc, ◌%◌, ◌≡◌, refl, sym, ap, ap₂, ◌∙◌, arith, Bool, true, false, ◌&&◌, if◌then◌else◌,
  bit_and, not8, has, List, [], ◌∷◌, Bool-cases, inl, inr, ◌⊎◌,
}
use ue2_c64u_emulator.Base.Masks.{has-bit_and}
use ue2_c64u_emulator.Wd177x.State.{
  Wd177x, DmaState, dma_idle, write_delay, DmaMem, next_addr, cpu_peek, st_busy, st_drq,
}
use ue2_c64u_emulator.Wd177x.Transfer.{settle_round, settle_for, settle, cpu_read}

module _ {M : Type 0} (dev : DmaMem M) where
  -- The second round of a transfer ends the loop.
  second_round :
      (w : Wd177x) (mem : M)
      → let (again, w', mem') = settle_round dev w mem in
        (again ≡ false) ⊎ ((settle_round dev w' mem').0 ≡ false)
  unfolding settle_round
  second_round w mem = by_state w.dma refl
    where
      by_state :
          (d : DmaState)
          → w.dma ≡ d
          → let (again, w', mem') = settle_round dev w mem in
            (again ≡ false) ⊎ ((settle_round dev w' mem').0 ≡ false)
      by_state dma_idle q = ground arith
      by_state (write_delay n) q = ground arith

  stops :
      (n : ℕ) (w : Wd177x) (mem : M)
      → (settle_round dev w mem).0 ≡ false
      → settle_for dev (suc n) w mem ≡ ((settle_round dev w mem).1, (settle_round dev w mem).2)
  unfolding settle_for
  stops n w mem h = rw (h, settle_for)

  goes_on :
      (n : ℕ) (w : Wd177x) (mem : M)
      → (settle_round dev w mem).0 ≡ true
      → settle_for dev (suc n) w mem
        ≡ settle_for dev n (settle_round dev w mem).1 (settle_round dev w mem).2
  unfolding settle_for
  goes_on n w mem h = rw (h, settle_for)

  -- The transfer's loop returns by itself, in two rounds at most, whatever the state: more fuel than
  -- the model's three rounds changes nothing.
  pub settle_for_enough :
      (k : ℕ) (w : Wd177x) (mem : M) → settle_for dev (suc (suc k)) w mem ≡ settle_for dev 3 w mem
  settle_for_enough k w mem = elim (Bool-cases (settle_round dev w mem).0) [
    | inr once ↦ stops (suc k) w mem once ∙ sym (stops 2 w mem once)
    | inl more ↦
        let twice : (settle_round dev (settle_round dev w mem).1 (settle_round dev w mem).2).0
            ≡ false =
          ground (arith, second_round w mem) in
        goes_on (suc k) w mem more
        ∙ stops k _ _ twice
        ∙ sym (goes_on 2 w mem more ∙ stops 1 _ _ twice)
  ]

  -- The drive's processor reads the data register `n` times.
  unfoldable pub cpu_reads : ℕ → Wd177x → M → List ℕ × Wd177x × M
  cpu_reads zero w mem = ([], w, mem)
  cpu_reads (suc n) w mem =
      let (v, w', mem') = cpu_read dev w 3 mem in
      let (vs, w'', mem'') = cpu_reads n w' mem' in (v ∷ vs, w'', mem'')

-- Memory that is not changed by reading it.
pub record IsQuiet {M : Type 0} (dev : DmaMem M) (peek : M → ℕ → ℕ) : Type 0 where
  pub reads : (m : M) (a : ℕ) → dev.read m a ≡ (peek m a, m)

-- The registers after the data register is read, before the transfer goes on.
abbrev taken : Wd177x → Wd177x
taken w = record w {
  status = if w.rdata_valid then bit_and w.status (not8 st_drq) else w.status;
  rdata_valid = false;
}

not_busy : (x : ℕ) {y : ℕ} → y ≡ bit_and x (not8 st_busy) → has y st_busy ≡ false
not_busy x e = rw e (has-bit_and 0 x (not8 st_busy) ∙ clear_bit (has x 1))
  where
    clear_bit : (b : Bool) → (b && has (not8 st_busy) 1) ≡ false
    clear_bit true = unfold has in refl
    clear_bit false = refl

module _ {M : Type 0} (dev : DmaMem M) (peek : M → ℕ → ℕ) (quiet : IsQuiet dev peek) where
  -- The `n` bytes from an address on, in 24 bits.
  abbrev pub bytes_from : M → ℕ → ℕ → List ℕ
  bytes_from m a zero = []
  bytes_from m a (suc n) = peek m (a % 16777216) ∷ bytes_from m (next_addr a) n

  -- A read transfer with the byte of address `a` in the data register and `n` more to come.
  record IsServing (m : M) (w : Wd177x) (a n : ℕ) : Type 0 where
    running : w.in_reset ≡ false
    waiting : w.dma ≡ dma_idle
    mode : w.dma_mode ≡ 1
    ready : w.rdata_valid ≡ true
    byte : w.data_reg ≡ peek m (a % 16777216)
    left : w.len ≡ n
    next : w.addr ≡ next_addr a

  fetch_byte :
      (m : M) (w : Wd177x) (a n : ℕ)
      → w.in_reset ≡ false
      → w.dma ≡ dma_idle
      → w.dma_mode ≡ 1
      → w.rdata_valid ≡ false
      → w.len ≡ suc n
      → w.addr ≡ a
      → IsServing m (settle dev w m).0 a n × ((settle dev w m).1 ≡ m)
  unfolding settle settle_round
  fetch_byte m w a n r d o v l e = ground (arith, quiet.reads m (w.addr % 16777216))

  -- With nothing left, the transfer ends: BUSY falls and the controller is idle.
  end_transfer :
      (m : M) (w : Wd177x)
      → w.in_reset ≡ false
      → w.dma ≡ dma_idle
      → w.dma_mode ≡ 1
      → w.rdata_valid ≡ false
      → w.len ≡ 0
      → ((settle dev w m).0.dma_mode ≡ 0)
        × ((settle dev w m).0.status ≡ bit_and w.status (not8 st_busy))
        × ((settle dev w m).1 ≡ m)
  unfolding settle settle_round
  end_transfer m w r d o v l = ground arith

  serve_next :
      (m : M) (w : Wd177x) (a n : ℕ)
      → IsServing m w a (suc n)
      → let (v, w', m') = cpu_read dev w 3 m in
        (v ≡ peek m (a % 16777216)) × IsServing m w' (next_addr a) n × (m' ≡ m)
  unfolding cpu_read cpu_peek
  serve_next m w a n s =
      let (s', k) =
        fetch_byte m (taken w) (next_addr a) n s.running s.waiting s.mode refl s.left s.next in
      (s.byte, s', k)

  serve_last :
      (m : M) (w : Wd177x) (a : ℕ)
      → IsServing m w a 0
      → let (v, w', m') = cpu_read dev w 3 m in
        (v ≡ peek m (a % 16777216)) × (w'.dma_mode ≡ 0) × (has w'.status st_busy ≡ false) × (m' ≡ m)
  unfolding cpu_read cpu_peek
  serve_last m w a s =
      let (o, st, k) = end_transfer m (taken w) s.running s.waiting s.mode refl s.left in
      (s.byte, o, not_busy _ st, k)

  serve_all :
      (n : ℕ) (m : M) (w : Wd177x) (a : ℕ)
      → IsServing m w a n
      → let (vs, w', m') = cpu_reads dev (suc n) w m in
        (vs ≡ bytes_from m a (suc n))
        × (w'.dma_mode ≡ 0)
        × (has w'.status st_busy ≡ false)
        × (m' ≡ m)
  unfolding cpu_reads
  serve_all zero m w a s = let (v, o, b, k) = serve_last m w a s in (ap (λ x. x ∷ []) v, o, b, k)
  serve_all (suc n) m w a s =
      let (v, s', k) = serve_next m w a n s in
      let (vs, o, b, k') = serve_all n m (cpu_read dev w 3 m).1 (next_addr a) s' in
      rw k (ap₂ ◌∷◌ v vs, o, b, k')

  -- A sector read: once the firmware has set the address, a length of one or more and the read mode,
  -- as many reads of the data register give the bytes of memory from that address on, in order; the
  -- memory is as it was, BUSY is clear, and the controller is idle again.
  pub read_transfer :
      (m : M) (w : Wd177x) (a n : ℕ)
      → w.in_reset ≡ false
      → w.dma ≡ dma_idle
      → w.dma_mode ≡ 1
      → w.rdata_valid ≡ false
      → w.len ≡ suc n
      → w.addr ≡ a
      → let (w0, m0) = settle dev w m in
        let (vs, w', m') = cpu_reads dev (suc n) w0 m0 in
        (vs ≡ bytes_from m a (suc n))
        × (w'.dma_mode ≡ 0)
        × (has w'.status st_busy ≡ false)
        × (m' ≡ m)
  read_transfer m w a n r d o v l e =
      let (s, k) = fetch_byte m w a n r d o v l e in rw k (serve_all n m (settle dev w m).0 a s)
