-- ===== src/Clock/Tests.antt =====
-- The clock's theorem at the PAL rate.
use ue2_c64u_emulator.Base.{◌+◌, ◌≤◌, arith}
use ue2_c64u_emulator.Clock.{Clock, cycles, time_of, cycles-time_of}

abbrev pal : Clock
pal = record { now = 1000; cycles = 50; hz = 985_248 }

cycles-time_of_example :
    (cycles pal (time_of pal 1050) ≤ 1050) × (1050 ≤ cycles pal (time_of pal 1050) + 1)
cycles-time_of_example =
    cycles-time_of pal 1050 (omega arith) (omega arith) (omega arith) (omega arith) (omega arith)
