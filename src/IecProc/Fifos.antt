-- ===== src/IecProc/Fifos.antt =====
-- The two FIFOs between the firmware and the engine: what one side puts in the other takes out, in order.
use ue2_c64u_emulator.Base.{
  ℕ, zero, suc, ◌+◌, ◌*◌, ◌/◌, ◌%◌, ◌^◌, ◌<◌, ◌≡◌, refl, sym, ap, ap₂, ◌∙◌, arith, ◌⊎◌, inl, inr,
  Bool, true, false, ◌==◌, from_bool, has, bit_and, bit_or, u8, u16, not32, List, [], ◌∷◌, ◌++◌,
  map, length, length-append,
}
use ue2_c64u_emulator.Base.Bits.{
  bit_at, bit_at-bit_and, bit_at-bit_or, bit_at-zero, eq_of_bits, bit_and-le, bit_or-lt,
}
use ue2_c64u_emulator.Base.Masks.{bit_or_fields, bit_and_mask, has_pow}
use ue2_c64u_emulator.IecProc.State.{IecProc, set_data}
use ue2_c64u_emulator.IecProc.Engine.{opcode, databyte, push, pop}
use ue2_c64u_emulator.IecProc.Registers.{peek, takes_entry, read, write_register, write}

map-append : {B : Type 0} (f : ℕ → B) (xs ys : List ℕ) → map f (xs ++ ys) ≡ map f xs ++ map f ys
map-append f [] ys = refl
map-append f (x ∷ xs) ys = ap (λ t. f x ∷ t) (map-append f xs ys)

-- An entry for the engine: the data, whether it is a control code, whether it is the last one.
unfoldable entry : ℕ → ℕ × Bool × Bool
entry h = (h % 256, bit_at h 8, bit_at h 9)

-- What a POP leaves for the program to test.
unfoldable pub taken : IecProc → ℕ × Bool × Bool
taken p = (bit_and p.out 0xff, p.ctrl, has p.out 0x1000)

-- The engine executes its POP `n` times.
unfoldable pub pops : ℕ → IecProc → List (ℕ × Bool × Bool) × IecProc
pops zero p = ([], p)
pops (suc n) p = let q = pop p in let r = pops n q in (taken q ∷ r.0, r.1)

-- The bits below 8 and the bits 8 to 19 of the masks that a POP uses.
low_masks :
    (i : ℕ)
    → i < 8
    → (bit_at 0xffffff00 i ≡ false)
      × (bit_at 0xffffefff i ≡ true)
      × (bit_at 0xff i ≡ true)
      × (bit_at 4096 i ≡ false)
unfolding bit_at
low_masks zero h = (refl, refl, refl, refl)
low_masks (suc zero) h = (refl, refl, refl, refl)
low_masks (suc (suc zero)) h = (refl, refl, refl, refl)
low_masks (suc (suc (suc zero))) h = (refl, refl, refl, refl)
low_masks (suc (suc (suc (suc zero)))) h = (refl, refl, refl, refl)
low_masks (suc (suc (suc (suc (suc zero))))) h = (refl, refl, refl, refl)
low_masks (suc (suc (suc (suc (suc (suc zero)))))) h = (refl, refl, refl, refl)
low_masks (suc (suc (suc (suc (suc (suc (suc zero))))))) h = (refl, refl, refl, refl)
low_masks (suc (suc (suc (suc (suc (suc (suc (suc i)))))))) h = absurd (omega arith)

eoi-bit : (h : ℕ) → (bit_and (h / 512) 1 * 4096 ≡ 0) ⊎ (bit_and (h / 512) 1 * 4096 ≡ 4096)
eoi-bit h = ground (arith, bit_and-le (h / 512) 1)

-- The output after a POP of the entry `h`.
abbrev popped : ℕ → ℕ → ℕ
popped o h =
    bit_or (bit_and (bit_or (bit_and o (not32 0xff)) (u8 h)) (not32 (2 ^ 12)))
      (bit_and (h / 512) 1 * 2 ^ 12)

popped-low : (o h : ℕ) → bit_and (popped o h) 0xff ≡ h % 256
popped-low o h =
    eq_of_bits 8 _ _ (omega (arith, bit_and-le (popped o h) 0xff)) (omega arith) (λ i lt. ground (
      arith,
      low_masks i lt,
      bit_at-bit_and i (popped o h) 0xff,
      bit_at-bit_or i (bit_and (bit_or (bit_and o (not32 0xff)) (u8 h)) (not32 (2 ^ 12)))
          (bit_and (h / 512) 1 * 2 ^ 12),
      bit_at-bit_and i (bit_or (bit_and o (not32 0xff)) (u8 h)) (not32 (2 ^ 12)),
      bit_at-bit_or i (bit_and o (not32 0xff)) (u8 h),
      bit_at-bit_and i o (not32 0xff),
      eoi i lt,
    ))
  where
    eoi : (i : ℕ) → i < 8 → bit_at (bit_and (h / 512) 1 * 2 ^ 12) i ≡ false
    eoi i lt = elim (eoi-bit h) [ inl e ↦ rw e (bit_at-zero i) | inr e ↦ rw e (low_masks i lt).3 ]

popped-eoi : (o h : ℕ) → has (popped o h) 0x1000 ≡ bit_at h 9
popped-eoi o h =
    has_pow 12 (popped o h)
    ∙ ground (
      arith,
      bit_at-bit_or 12 (bit_and (bit_or (bit_and o (not32 0xff)) (u8 h)) (not32 (2 ^ 12)))
          (bit_and (h / 512) 1 * 2 ^ 12),
      bit_at-bit_and 12 (bit_or (bit_and o (not32 0xff)) (u8 h)) (not32 (2 ^ 12)),
      cleared,
      placed,
    )
  where
    cleared : bit_at (not32 (2 ^ 12)) 12 ≡ false
    cleared = unfold bit_at in refl

    placed : bit_at (bit_and (h / 512) 1 * 2 ^ 12) 12 ≡ bit_at h 9
    placed = unfold bit_at in ground (arith, bit_and_mask 1 (h / 512))

triple :
    {a a' : ℕ} {b b' c c' : Bool}
    → a ≡ a'
    → b ≡ b'
    → c ≡ c'
    → ◌≡◌ {A = ℕ × Bool × Bool} (a, b, c) (a', b', c')
triple p q r = rw (p, q, r) refl

pop_lem :
    (p : IecProc) (h : ℕ) (hs : List ℕ)
    → p.down ≡ h ∷ hs
    → has (databyte p.instr) 2 ≡ false
    → (taken (pop p) ≡ entry h) × ((pop p).down ≡ hs) × ((pop p).instr ≡ p.instr)
unfolding pop taken entry set_data
pop_lem p h hs e b =
    (rw e (triple (popped-low p.out h) (has_pow 8 h) (popped-eoi p.out h)), ground arith, refl)

-- An instruction that takes the entries gets them oldest first.
pops-map :
    (hs : List ℕ) (p : IecProc)
    → p.down ≡ hs
    → has (databyte p.instr) 2 ≡ false
    → (pops (length hs) p).0 ≡ map entry hs
unfolding pops
pops-map [] p e b = refl
pops-map (h ∷ hs) p e b =
    let one = pop_lem p h hs e b in
    ap₂ (λ (t : ℕ × Bool × Bool) (ts : List (ℕ × Bool × Bool)). t ∷ ts) one.0
      (pops-map hs (pop p) one.1 (ap (λ (i : ℕ). has (databyte i) 2) one.2 ∙ b))

-- Two bits above a byte.
with_flags : (r val : ℕ) → r < 4 → val < 256 → bit_or (r * 256) val ≡ val + r * 256
with_flags r val h k = flipped ∙ bit_or_fields 8 r val k
  where
    flipped : bit_or (r * 256) val ≡ bit_or val (r * 256)
    flipped =
        eq_of_bits 10 _ _ (bit_or-lt 10 (r * 256) val (omega arith) (omega arith))
          (bit_or-lt 10 val (r * 256) (omega arith) (omega arith))
          (λ i lt. ground (arith, bit_at-bit_or i (r * 256) val, bit_at-bit_or i val (r * 256)))

-- What the registers 8 to 11 put into the FIFO, as the engine finds it.
sent_entry :
    (r val : ℕ) → r < 4 → val < 256 → entry (bit_or (r * 256) val) ≡ (val, bit_at r 0, bit_at r 1)
unfolding entry
sent_entry r val h k = rw (with_flags r val h k) (triple (omega arith) (eighth r h) (ninth r h))
  where
    eighth : (r : ℕ) → r < 4 → bit_at (val + r * 256) 8 ≡ bit_at r 0
    eighth r h = unfold bit_at in ground arith

    ninth : (r : ℕ) → r < 4 → bit_at (val + r * 256) 9 ≡ bit_at r 1
    ninth r h = unfold bit_at in ground arith

write_lem :
    (p : IecProc) (r val : ℕ)
    → r < 4
    → p.flush ≡ false
    → length p.down < 15
    → write p (8 + r) val ≡ record p { down = p.down ++ (bit_or (r * 256) val ∷ []) }
unfolding write write_register has
write_lem p zero val h f l = ground arith
write_lem p (suc zero) val h f l = ground arith
write_lem p (suc (suc zero)) val h f l = ground arith
write_lem p (suc (suc (suc zero))) val h f l = ground arith
write_lem p (suc (suc (suc (suc r)))) val h f l = absurd (omega arith)

-- A byte that the firmware writes is the last that the engine's POPs get, after all that were waiting,
-- and comes with the flags of the register that it was written to: bit 0 of the register's number
-- for a control code, bit 1 for the last byte.
pub pops-write :
    (p : IecProc) (r val : ℕ)
    → r < 4
    → val < 256
    → p.flush ≡ false
    → length p.down < 15
    → has (databyte p.instr) 2 ≡ false
    → (pops (length p.down + 1) (write p (8 + r) val)).0
      ≡ (pops (length p.down) p).0 ++ ((val, bit_at r 0, bit_at r 1) ∷ [])
pops-write p r val h k f l b =
    rw (write_lem p r val h f l, sym longer)
      (pops-map (p.down ++ (e ∷ [])) (record p { down = p.down ++ (e ∷ []) }) refl b
        ∙ map-append entry p.down (e ∷ [])
        ∙ ap₂ (λ (xs ys : List (ℕ × Bool × Bool)). xs ++ ys) (sym (pops-map p.down p refl b))
            (ap (λ (t : ℕ × Bool × Bool). t ∷ []) (sent_entry r val h k)))
  where
    e : ℕ
    e = bit_or (r * 256) val

    longer : length (p.down ++ (e ∷ [])) ≡ length p.down + 1
    longer = length-append p.down (e ∷ [])

-- The firmware reads the flag of the head (register 7), then takes the head (register 6).
unfoldable pub drain : ℕ → IecProc → List (ℕ × ℕ) × IecProc
drain zero p = ([], p)
drain (suc n) p = let r = read p 6 in let more = drain n r.1 in ((peek p 7, r.0) ∷ more.0, more.1)

received : ℕ → ℕ × ℕ
received h = (bit_and (u8 (h / 256)) 1, u8 h)

read_lem :
    (p : IecProc) (h : ℕ) (hs : List ℕ)
    → p.up ≡ h ∷ hs
    → (peek p 7 ≡ bit_and (u8 (h / 256)) 1) × ((read p 6).0 ≡ u8 h) × ((read p 6).1.up ≡ hs)
unfolding read peek takes_entry
read_lem p h hs e = rw e (refl, refl, refl)

pair : {a a' b b' : ℕ} → a ≡ a' → b ≡ b' → ◌≡◌ {A = ℕ × ℕ} (a, b) (a', b')
pair p q = rw (p, q) refl

drain-map : (hs : List ℕ) (p : IecProc) → p.up ≡ hs → (drain (length hs) p).0 ≡ map received hs
unfolding drain received
drain-map [] p e = refl
drain-map (h ∷ hs) p e =
    let one = read_lem p h hs e in
    ap₂ (λ (t : ℕ × ℕ) (ts : List (ℕ × ℕ)). t ∷ ts) (pair one.0 one.1)
      (unfold received in drain-map hs (read p 6).1 one.2)

received_lem :
    (t : Bool) (d : ℕ)
    → received (bit_or (from_bool t * 256) (u16 (bit_and d 0xff))) ≡ (from_bool t, d % 256)
unfolding received
received_lem t d =
    rw (low, with_flags (from_bool t) (d % 256) (small t) (omega arith))
      (pair (flag ∙ carried t) (omega arith))
  where
    small : (t : Bool) → from_bool t < 4
    small true = omega arith
    small false = omega arith

    low : u16 (bit_and d 0xff) ≡ d % 256
    low = omega (arith, bit_and_mask 8 d)

    flag :
        bit_and (u8 ((d % 256 + from_bool t * 256) / 256)) 1
        ≡ u8 ((d % 256 + from_bool t * 256) / 256) % 2
    flag = bit_and_mask 1 _

    carried : (t : Bool) → u8 ((d % 256 + from_bool t * 256) / 256) % 2 ≡ from_bool t
    carried true = omega arith
    carried false = omega arith

-- What the engine pushes is the last that the firmware reads, after all that was waiting: the data
-- register, and 1 in the flag's register for a control code.
pub drain-push :
    (p : IecProc)
    → length p.up < 2048
    → (drain (length p.up + 1) (push p)).0
      ≡ (drain (length p.up) p).0 ++ ((from_bool (opcode p.instr == 0x2), p.out % 256) ∷ [])
drain-push p h =
    rw (room, sym longer)
      (drain-map (p.up ++ (e ∷ [])) (record p { up = p.up ++ (e ∷ []) }) refl
        ∙ map-append received p.up (e ∷ [])
        ∙ ap₂ (λ (xs ys : List (ℕ × ℕ)). xs ++ ys) (sym (drain-map p.up p refl))
            (ap (λ (t : ℕ × ℕ). t ∷ []) (received_lem (opcode p.instr == 0x2) p.out)))
  where
    e : ℕ
    e = bit_or (from_bool (opcode p.instr == 0x2) * 256) (u16 (bit_and p.out 0xff))

    longer : length (p.up ++ (e ∷ [])) ≡ length p.up + 1
    longer = length-append p.up (e ∷ [])

    room : push p ≡ record p { up = p.up ++ (e ∷ []) }
    room = unfold push in ground arith
