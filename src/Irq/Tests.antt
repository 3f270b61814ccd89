-- ===== src/Irq/Tests.antt =====
-- Runs of the interrupt core, and its theorems at concrete registers.
use ue2_c64u_emulator.Base.{◌≡◌, refl, arith, true, false, List, [], ◌∷◌}
use ue2_c64u_emulator.Irq.{Event, pulsed, driven, cleared, raised, new, apply, run}
use ue2_c64u_emulator.Base.Bits.{bit_at}
use ue2_c64u_emulator.Irq.Source
use ue2_c64u_emulator.Irq.Source.{source, pending}
use ue2_c64u_emulator.Irq.Bitwise.{IsByteWide, enables, source-run}

-- The Commodore 64's reset is held, cleared while it is held, released and held again, while high
-- sources come and go.
abbrev reset_held_twice : List Event
reset_held_twice =
    driven 7 true
    ∷ cleared 0x80
    ∷ raised 7 true
    ∷ driven 7 true
    ∷ pulsed 7
    ∷ driven 7 false
    ∷ raised 2 true
    ∷ driven 7 true
    ∷ raised 7 false
    ∷ []

new-IsByteWide : IsByteWide new
unfolding new
new-IsByteWide = omega arith

latches_again : (run new reset_held_twice).flags ≡ 0x80
unfolding run apply new
latches_again = refl

source-run_example :
    (source 7 (run new reset_held_twice) ≡ Source.run 7 (source 7 new) reset_held_twice)
    × (bit_at (run new reset_held_twice).high_src 7 ≡ Source.high_run 7 false reset_held_twice)
    × (enables (run new reset_held_twice) ≡ (true, 0, 0))
unfolding bit_at new
source-run_example = source-run 7 new reset_held_twice (omega arith) new-IsByteWide (omega arith)
