-- ===== src/SystemBus/Stalls.antt =====
-- Accesses that reach no device: in the window of an absent block, and after one that waits for ever.
use ue2_c64u_emulator.Base.{
  ℕ, ◌≡◌, ◌⊎◌, inl, inr, refl, arith, Bool, true, false, not, ◌&&◌, leb, ltb, if◌then◌else◌,
  if_elim, Option, some, none, List, Option-cases,
}
use ue2_c64u_emulator.SystemBus.IoMap.{IoDevice}
use ue2_c64u_emulator.SystemBus.Absent.{Block, Mode, NoAck, is_block, is_no_ack, core}
use ue2_c64u_emulator.SystemBus.Access.{
  SystemBus, io, region, record_access, record_if, absent_at, answer_absent, absent_access, touched,
  io_read8, io_write8, read8, write8,
}

module _ {D : Type 0} where
  -- Nothing that a device sees or changes is different.
  pub record Untouched (b c : SystemBus D) : Type 0 where
    pub same_io : c.io ≡ b.io
    pub same_ram : c.ram ≡ b.ram
    pub same_irq : c.irq ≡ b.irq
    pub same_console : c.console ≡ b.console
    pub same_stall : c.stall ≡ b.stall

  recorded-Untouched :
      (test : Bool) (b c : SystemBus D) (write : Bool) (addr val : ℕ)
      → Untouched b c
      → Untouched b (record_if test c write addr val true true)
  unfolding record_access
  recorded-Untouched true b c write addr val u = record {
    same_io = u.same_io;
    same_ram = u.same_ram;
    same_irq = u.same_irq;
    same_console = u.same_console;
    same_stall = u.same_stall;
  }
  recorded-Untouched false b c write addr val u = u

  waits : {b : SystemBus D} (n : Option NoAck) → Untouched b (record (touched b) { noack = n })
  waits n = record {
    same_io = refl;
    same_ram = refl;
    same_irq = refl;
    same_console = refl;
    same_stall = refl;
  }

module _ {D : Type 0} (dev : IoDevice D) (mem_only : List D → Bool) where
  -- An access that is answered without a device, by 0 or 0xFF.
  pub record Unserved (b : SystemBus D) (r : ℕ × SystemBus D) : Type 0 where
    pub value : (r.0 ≡ 0) ⊎ (r.0 ≡ 0xff)
    pub untouched : Untouched b r.1

  answer_absent-Unserved :
      (b : SystemBus D) (block : Block) (mode : Mode) (addr : ℕ) (write : Bool) (val : ℕ)
      → Unserved b (answer_absent dev mem_only (touched b) block mode addr write val)
  unfolding answer_absent
  answer_absent-Unserved b block mode addr write val =
      if_elim (Unserved b)
        (is_block block core
          && is_no_ack mode
          && not write
          && leb 0x1005d400 addr
          && ltb addr 0x1005d800
          && not (mem_only b.io.devices))
        _ _
        record {
          value = inr refl;
          untouched = recorded-Untouched b.trace_io b (touched b) false addr 0xff (waits b.noack);
        }
        record {
          value = inl refl;
          untouched =
              recorded-Untouched b.trace_io b _ write addr (if write then val else 0)
                (if_elim (Untouched b) (is_no_ack mode) _ _ (waits (some _)) (waits b.noack));
        }

  waiting :
      (b : SystemBus D) (addr : ℕ) (write : Bool) (val : ℕ) (n : NoAck)
      → b.noack ≡ some n
      → absent_access dev mem_only (touched b) addr write val ≡ some (0, touched b)
  unfolding absent_access
  waiting b addr write val n e = ground arith

  answering :
      (b : SystemBus D) (addr : ℕ) (write : Bool) (val : ℕ) (block : Block) (mode : Mode)
      → b.noack ≡ none
      → absent_at b addr ≡ some (block, mode)
      → absent_access dev mem_only (touched b) addr write val
        ≡ some (answer_absent dev mem_only (touched b) block mode addr write val)
  unfolding absent_access absent_at
  answering b addr write val block mode e h = ground arith

  reads :
      (b : SystemBus D) (addr : ℕ) {r : ℕ × SystemBus D}
      → region addr ≡ io
      → absent_access dev mem_only (touched b) addr false 0 ≡ some r
      → read8 dev mem_only b addr ≡ r
  unfolding read8 io_read8
  reads b addr e h = ground arith

  writes :
      (b : SystemBus D) (addr val : ℕ) {r : ℕ × SystemBus D}
      → region addr ≡ io
      → absent_access dev mem_only (touched b) addr true val ≡ some r
      → write8 dev mem_only b addr val ≡ r.1
  unfolding write8 io_write8
  writes b addr val e h = ground arith

  carry : {b : SystemBus D} {r r' : ℕ × SystemBus D} → r' ≡ r → Unserved b r → Unserved b r'
  carry q u = rw q u

  carry_write : {b c : SystemBus D} {r : ℕ × SystemBus D} → c ≡ r.1 → Unserved b r → Untouched b c
  carry_write q u = rw q u.untouched

  held_back :
      (b : SystemBus D) (addr val : ℕ) (n : NoAck)
      → region addr ≡ io
      → b.noack ≡ some n
      → Unserved b (read8 dev mem_only b addr) × Untouched b (write8 dev mem_only b addr val)
  held_back b addr val n e w =
      let idle : Unserved b (0, touched b) = record {
        value = inl refl;
        untouched = waits b.noack;
      } in
      (
        carry (reads b addr e (waiting b addr false 0 n w)) idle,
        carry_write (writes b addr val e (waiting b addr true val n w)) idle,
      )

  -- While an instruction waits on an access that is never acknowledged, and in the window of an absent
  -- block, a byte on the I/O window reaches no device: no device, no memory, no interrupt
  -- source and no console changes and no time is charged, and a read gives 0 or 0xFF.
  pub unserved :
      (b : SystemBus D) (addr val : ℕ)
      → region addr ≡ io
      → ((n : NoAck) × (b.noack ≡ some n)) ⊎ ((at : Block × Mode) × (absent_at b addr ≡ some at))
      → Unserved b (read8 dev mem_only b addr) × Untouched b (write8 dev mem_only b addr val)
  unserved b addr val e (inl (n, w)) = held_back b addr val n e w
  unserved b addr val e (inr (at, h)) = elim (Option-cases b.noack) [
    | inr (n, w) ↦ held_back b addr val n e w
    | inl free ↦ (
      carry (reads b addr e (answering b addr false 0 at.0 at.1 free h))
          (answer_absent-Unserved b at.0 at.1 addr false 0),
      carry_write (writes b addr val e (answering b addr true val at.0 at.1 free h))
          (answer_absent-Unserved b at.0 at.1 addr true val),
    )
  ]
