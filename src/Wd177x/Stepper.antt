-- ===== src/Wd177x/Stepper.antt =====
-- The head: where it can be, and that it arrives.
use ue2_c64u_emulator.Base.{ℕ, ◌+◌, ◌-◌, ◌*◌, min}
use ue2_c64u_emulator.Wd177x.State.{Wd177x, max_track}

-- Where the firmware's request takes the head: the mechanics end at track 83.
abbrev pub target : Wd177x → ℕ
target w = min w.goto_track max_track

abbrev distance : Wd177x → ℕ
distance w = (w.cur_track - target w) + (target w - w.cur_track)

-- The milliseconds that are enough for the head to arrive: the wait that is under way, and for each
-- track one step with its time.
abbrev pub travel_ms : Wd177x → ℕ
travel_ms w = w.step_timer + distance w * (w.step_time + 1)
