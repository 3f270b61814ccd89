-- ===== src/Irq.antt =====
-- crates/ue2-core/src/irq.rs: the interrupt core of the ITU, one byte of low sources (edge or level)
-- and one byte of high sources (level), behind one line to the processor.
pub mod Source
pub mod Bitwise
mod Tests
use ue2_c64u_emulator.Base.{
  ℕ, ◌+◌, ◌-◌, ◌^◌, bit_and, bit_or, Bool, true, false, not, ◌&&◌, ◌||◌, ◌==◌, if◌then◌else◌, not8,
  List, [], ◌∷◌,
}

-- `EDGE_MASK_DEFAULT`
abbrev pub edge_mask_default : ℕ
edge_mask_default = 0x85

pub record IrqState : Type 0 where
  pub global_en : Bool
  pub mask : ℕ
  pub edge_mask : ℕ
  pub flags : ℕ
  pub level : ℕ
  pub high_en : ℕ
  pub high_src : ℕ

unfoldable pub new : IrqState
new = record {
  global_en = true;
  mask = 0;
  edge_mask = edge_mask_default;
  flags = 0;
  level = 0;
  high_en = 0;
  high_src = 0;
}

unfoldable pub pulse : IrqState → ℕ → IrqState
pulse s bit = record s {
  flags = bit_or s.flags (bit_and (bit_and (2 ^ bit) s.edge_mask) (not8 s.level));
}

unfoldable pub set_level : IrqState → ℕ → Bool → IrqState
set_level s bit on =
    let b = 2 ^ bit in
    if on
    then record s {
      flags = bit_or s.flags (bit_and (bit_and b s.edge_mask) (not8 s.level));
      level = bit_or s.level b;
    }
    else record s { level = bit_and s.level (not8 b) }

unfoldable pub set_high : IrqState → ℕ → Bool → IrqState
set_high s bit on =
    if on
    then record s { high_src = bit_or s.high_src (2 ^ bit) }
    else record s { high_src = bit_and s.high_src (not8 (2 ^ bit)) }

unfoldable pub active : IrqState → ℕ
active s = bit_and (bit_or s.flags (bit_and s.level (not8 s.edge_mask))) s.mask

unfoldable pub high_active : IrqState → ℕ
high_active s = bit_and s.high_src s.high_en

unfoldable pub clear : IrqState → ℕ → IrqState
clear s bits = record s { flags = bit_and s.flags (not8 bits) }

unfoldable pub line : IrqState → Bool
line s = s.global_en && (not (active s == 0) || not (high_active s == 0))

-- What the other devices and the register view do to the sources, in order: the low byte's, and the
-- high byte's with `raised`.
pub data Event : Type 0 where
  pulsed : ℕ → Event
  driven : ℕ → Bool → Event
  cleared : ℕ → Event
  raised : ℕ → Bool → Event

unfoldable pub apply : IrqState → Event → IrqState
unfolding pulse set_level clear set_high
apply s (pulsed bit) = pulse s bit
apply s (driven bit on) = set_level s bit on
apply s (cleared bits) = clear s bits
apply s (raised bit on) = set_high s bit on

unfoldable pub run : IrqState → List Event → IrqState
run s [] = s
run s (e ∷ es) = run (apply s e) es
