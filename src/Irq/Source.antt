-- ===== src/Irq/Source.antt =====
-- One low source and one high source by themselves, with no bytes and no masks: the abstract view of the
-- interrupt core.
use ue2_c64u_emulator.Base.{
  ℕ, Bool, true, false, not, ◌&&◌, ◌||◌, ◌==◌, if◌then◌else◌, List, [], ◌∷◌,
}
use ue2_c64u_emulator.Base.Bits.{bit_at}
use ue2_c64u_emulator.Irq.{IrqState, Event, pulsed, driven, cleared, raised}

-- `edge` latches a rise; `held` is the level of the line; `latched` is its flag.
pub record Source : Type 0 where
  pub edge : Bool
  pub held : Bool
  pub latched : Bool

-- The flag after a rise of the line is seen.
abbrev pub rise : Source → Bool
rise s = s.latched || s.edge && not s.held

abbrev pub pending : Source → Bool
pending s = s.latched || s.held && not s.edge

-- What an event does to source `i`.
unfoldable pub step : ℕ → Source → Event → Source
step i s (pulsed bit) = if i == bit then record s { latched = rise s } else s
step i s (driven bit on) =
    if i == bit
    then (if on then record s { latched = rise s; held = true } else record s { held = false })
    else s
step i s (cleared bits) = record s { latched = s.latched && not (bit_at bits i) }
step i s (raised bit on) = s

unfoldable pub run : ℕ → Source → List Event → Source
run i s [] = s
run i s (e ∷ es) = run i (step i s e) es

-- What an event does to the level of high source `i`.
unfoldable pub high_step : ℕ → Bool → Event → Bool
high_step i up (raised bit on) = if i == bit then on else up
high_step i up (pulsed bit) = up
high_step i up (driven bit on) = up
high_step i up (cleared bits) = up

unfoldable pub high_run : ℕ → Bool → List Event → Bool
high_run i up [] = up
high_run i up (e ∷ es) = high_run i (high_step i up e) es

-- Source `i` of the low bytes.
abbrev pub source : ℕ → IrqState → Source
source i s = record {
  edge = bit_at s.edge_mask i;
  held = bit_at s.level i;
  latched = bit_at s.flags i;
}
