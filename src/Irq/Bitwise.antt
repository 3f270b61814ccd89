-- ===== src/Irq/Bitwise.antt =====
-- The bytes of the interrupt core are eight independent sources.
use ue2_c64u_emulator.Base.{
  ℕ, ◌^◌, ◌<◌, ◌≡◌, refl, bit_and, bit_or, true, false, not, ◌&&◌, ◌==◌, List, [], ◌∷◌, arith, not8,
  Bool, ap, ◌∙◌, Bool-cases, inl, inr, ◌↔◌, ◌⊎◌,
}
use native.Mathlib.Nat.{pow-le-pow_right}
use ue2_c64u_emulator.Base.Bits.{
  bit_at, bit_at-bit_and, bit_at-bit_or, bit_at-not8, bit_at-pow, bit_and-le, bit_or-lt,
  ne_zero-bit, ne_zero_of_bit,
}
use ue2_c64u_emulator.Irq.{
  IrqState, Event, pulsed, driven, cleared, raised, active, high_active, line, apply, run,
}
use ue2_c64u_emulator.Irq.Source
use ue2_c64u_emulator.Irq.Source.{source, pending, step, high_step, high_run}

-- The registers are bytes.
pub record IsByteWide (s : IrqState) : Type 0 where
  pub mask_fits : s.mask < 256
  pub edge_fits : s.edge_mask < 256
  pub flags_fit : s.flags < 256
  pub level_fits : s.level < 256
  pub high_en_fits : s.high_en < 256
  pub high_src_fits : s.high_src < 256

-- The event names one of a byte's eight sources, or bits of the byte.
abbrev pub NamesBits : Event → Type 0
NamesBits (pulsed bit) = bit < 8
NamesBits (driven bit on) = bit < 8
NamesBits (cleared bits) = bits < 256
NamesBits (raised bit on) = bit < 8

abbrev pub AllNameBits : List Event → Type 0
AllNameBits [] = Unit
AllNameBits (e ∷ es) = NamesBits e × AllNameBits es

pow-lt_256 : (k : ℕ) → k < 8 → 2 ^ k < 256
pow-lt_256 k h = omega (arith, pow-le-pow_right {n = 2} (omega arith) {i = k} {j = 7} (omega arith))

pub apply-IsByteWide :
    (s : IrqState) (e : Event) → NamesBits e → IsByteWide s → IsByteWide (apply s e)
unfolding apply
apply-IsByteWide s (pulsed bit) low v = ground (
  arith,
  bit_or-lt 8 s.flags (bit_and (bit_and (2 ^ bit) s.edge_mask) (not8 s.level)),
  bit_and-le (bit_and (2 ^ bit) s.edge_mask) (not8 s.level),
)
apply-IsByteWide s (driven bit on) low v = ground (
  arith,
  bit_or-lt 8 s.flags (bit_and (bit_and (2 ^ bit) s.edge_mask) (not8 s.level)),
  bit_and-le (bit_and (2 ^ bit) s.edge_mask) (not8 s.level),
  bit_or-lt 8 s.level (2 ^ bit),
  pow-lt_256 bit,
  bit_and-le s.level (not8 (2 ^ bit)),
)
apply-IsByteWide s (cleared bits) low v = ground (arith, bit_and-le s.flags (not8 bits))
apply-IsByteWide s (raised bit on) low v = ground (
  arith,
  bit_or-lt 8 s.high_src (2 ^ bit),
  pow-lt_256 bit,
  bit_and-le s.high_src (not8 (2 ^ bit)),
)

-- One event on the bytes is the event on each source.
pub source-apply :
    (i : ℕ) (s : IrqState) (e : Event)
    → i < 8
    → IsByteWide s
    → NamesBits e
    → source i (apply s e) ≡ step i (source i s) e
unfolding apply step
source-apply i s (pulsed bit) h v low =
    simp (bit_at-bit_or, bit_at-bit_and, bit_at-pow, bit_at-not8 i s.level h v.level_fits)
      (ground arith)
source-apply i s (driven bit true) h v low =
    simp (bit_at-bit_or, bit_at-bit_and, bit_at-pow, bit_at-not8 i s.level h v.level_fits)
      (ground arith)
source-apply i s (driven bit false) h v low =
    simp (bit_at-bit_and, bit_at-not8 i (2 ^ bit) h (pow-lt_256 bit low), bit_at-pow) (ground arith)
source-apply i s (cleared bits) h v low = simp (bit_at-bit_and, bit_at-not8 i bits h low)
source-apply i s (raised bit true) h v low = refl
source-apply i s (raised bit false) h v low = refl

high_src-apply :
    (i : ℕ) (s : IrqState) (e : Event)
    → i < 8
    → NamesBits e
    → bit_at (apply s e).high_src i ≡ high_step i (bit_at s.high_src i) e
unfolding apply high_step
high_src-apply i s (pulsed bit) h low = refl
high_src-apply i s (driven bit true) h low = refl
high_src-apply i s (driven bit false) h low = refl
high_src-apply i s (cleared bits) h low = refl
high_src-apply i s (raised bit true) h low = simp (bit_at-bit_or, bit_at-pow) (ground arith)
high_src-apply i s (raised bit false) h low =
    simp (bit_at-bit_and, bit_at-not8 i (2 ^ bit) h (pow-lt_256 bit low), bit_at-pow) (ground arith)

high_src-run :
    (i : ℕ) (s : IrqState) (es : List Event)
    → i < 8
    → AllNameBits es
    → bit_at (run s es).high_src i ≡ high_run i (bit_at s.high_src i) es
unfolding run high_run
high_src-run i s [] h low = refl
high_src-run i s (e ∷ es) h low =
    high_src-run i (apply s e) es h low.1
    ∙ ap (λ (t : Bool). high_run i t es) (high_src-apply i s e h low.0)

-- What the register view alone decides: whether interrupts are on, and the masks.
abbrev pub enables : IrqState → Bool × ℕ × ℕ
enables s = (s.global_en, s.mask, s.high_en)

enables-run : (s : IrqState) (es : List Event) → enables (run s es) ≡ enables s
unfolding run apply
enables-run s [] = refl
enables-run s (pulsed bit ∷ es) = enables-run (apply s (pulsed bit)) es
enables-run s (driven bit true ∷ es) = enables-run (apply s (driven bit true)) es
enables-run s (driven bit false ∷ es) = enables-run (apply s (driven bit false)) es
enables-run s (cleared bits ∷ es) = enables-run (apply s (cleared bits)) es
enables-run s (raised bit true ∷ es) = enables-run (apply s (raised bit true)) es
enables-run s (raised bit false ∷ es) = enables-run (apply s (raised bit false)) es

low-run :
    (i : ℕ) (s : IrqState) (es : List Event)
    → i < 8
    → IsByteWide s
    → AllNameBits es
    → source i (run s es) ≡ Source.run i (source i s) es
unfolding run Source.run
low-run i s [] h v low = refl
low-run i s (e ∷ es) h v low =
    rw (← source-apply i s e h v low.0)
      (low-run i (apply s e) es h (apply-IsByteWide s e low.0 v) low.1)

-- Whatever pulses, levels of low and high sources and clears come, in any order: each low source keeps the state
-- that it would have alone, a flag that latches the rises of an edge source, whatever the mask, until
-- it is cleared; each high source has the level that was set for it last; and the masks stay.
pub source-run :
    (i : ℕ) (s : IrqState) (es : List Event)
    → i < 8
    → IsByteWide s
    → AllNameBits es
    → (source i (run s es) ≡ Source.run i (source i s) es)
      × (bit_at (run s es).high_src i ≡ high_run i (bit_at s.high_src i) es)
      × (enables (run s es) ≡ enables s)
source-run i s es h v low = (low-run i s es h v low, high_src-run i s es h low, enables-run s es)

-- ITU_IRQ_ACTIVE shows a source exactly when it is pending and enabled.
pub bit_at-active :
    (i : ℕ) (s : IrqState)
    → i < 8
    → IsByteWide s
    → bit_at (active s) i ≡ (pending (source i s) && bit_at s.mask i)
unfolding active
bit_at-active i s h v =
    simp (bit_at-bit_and, bit_at-bit_or, bit_at-not8 i s.edge_mask h v.edge_fits)

SomeLow : IrqState → Type 0
SomeLow s = (i : ℕ) × (i < 8) × (pending (source i s) ≡ true) × (bit_at s.mask i ≡ true)

SomeHigh : IrqState → Type 0
SomeHigh s = (i : ℕ) × (i < 8) × (bit_at s.high_src i ≡ true) × (bit_at s.high_en i ≡ true)

active_ne_zero : (s : IrqState) → IsByteWide s → (not (active s == 0) ≡ true) ↔ SomeLow s
unfolding SomeLow
active_ne_zero s v = (
  (λ h.
      let (i, lt, e) = ne_zero-bit 8 (active s) fits h in
      (i, lt, ground (arith, bit_at-active i s lt v), ground (arith, bit_at-active i s lt v))),
  (λ r. ne_zero_of_bit 8 (active s) r.0 fits r.1 (ground (arith, bit_at-active r.0 s r.1 v))),
)
  where
    fits : active s < 256
    fits =
        unfold active in
        omega (arith, bit_and-le (bit_or s.flags (bit_and s.level (not8 s.edge_mask))) s.mask)

high_active_ne_zero : (s : IrqState) → IsByteWide s → (not (high_active s == 0) ≡ true) ↔ SomeHigh s
unfolding SomeHigh high_active
high_active_ne_zero s v = (
  (λ h.
      let (i, lt, e) = ne_zero-bit 8 (bit_and s.high_src s.high_en) fits h in
      (
        i,
        lt,
        ground (arith, bit_at-bit_and i s.high_src s.high_en),
        ground (arith, bit_at-bit_and i s.high_src s.high_en),
      )),
  (λ r.
      ne_zero_of_bit 8 (bit_and s.high_src s.high_en) r.0 fits r.1
        (ground (arith, bit_at-bit_and r.0 s.high_src s.high_en))),
)
  where
    fits : bit_and s.high_src s.high_en < 256
    fits = omega (arith, bit_and-le s.high_src s.high_en)

-- The processor's line is up exactly when interrupts are on and some low source is pending and
-- enabled, or some high source is up and enabled.
pub line_iff :
    (s : IrqState)
    → IsByteWide s
    → (line s ≡ true) ↔ (
        (s.global_en ≡ true)
        × (((i : ℕ) × (i < 8) × (pending (source i s) ≡ true) × (bit_at s.mask i ≡ true))
            ⊎ ((i : ℕ) × (i < 8) × (bit_at s.high_src i ≡ true) × (bit_at s.high_en i ≡ true))))
unfolding line SomeLow SomeHigh
line_iff s v = (to, from)
  where
    to : line s ≡ true → (s.global_en ≡ true) × (SomeLow s ⊎ SomeHigh s)
    to h = elim (Bool-cases (not (active s == 0))) [
      | inl e ↦ (ground arith, inl ((active_ne_zero s v).0 e))
      | inr e ↦ (ground arith, inr ((high_active_ne_zero s v).0 (ground arith)))
    ]

    from : (s.global_en ≡ true) × (SomeLow s ⊎ SomeHigh s) → line s ≡ true
    from (g, inl r) = ground (arith, (active_ne_zero s v).1 r)
    from (g, inr r) = ground (arith, (high_active_ne_zero s v).1 r)
