-- ===== src/Wd177x/Motion.antt =====
-- The head, the index pulse and time.
use ue2_c64u_emulator.Base.{
  ℕ, zero, suc, ◌+◌, ◌-◌, ◌*◌, ◌/◌, ◌%◌, min, max, bit_and, Bool, true, false, not, ◌&&◌, ◌==◌,
  if◌then◌else◌, ltb, leb, not8,
}
use ue2_c64u_emulator.Wd177x.State.{
  Wd177x, cycles_per_ms, dma_idle, index_period, max_track, st_busy, write_delay,
}

unfoldable pub step : Wd177x → Wd177x
step w =
    if not (w.step_timer == 0)
    then w
    else if ltb w.cur_track w.goto_track && not (w.cur_track == max_track)
    then record w { cur_track = w.cur_track + 1; step_timer = w.step_time }
    else if ltb w.goto_track w.cur_track
    then record w { cur_track = w.cur_track - 1; step_timer = w.step_time }
    else w

-- One tick of the 1 kHz clock.
unfoldable pub ms_tick : Bool → Wd177x → Wd177x
ms_tick motor w =
    let t = record w { step_timer = w.step_timer - 1 } in
    step (
      if motor
      then (if w.index_cnt == 0
          then record t { index_out = true; index_cnt = index_period }
          else record t { index_out = false; index_cnt = w.index_cnt - 1 })
      else t)

unfoldable pub ms_ticks : Bool → ℕ → Wd177x → Wd177x
ms_ticks motor zero w = w
ms_ticks motor (suc n) w = ms_ticks motor n (ms_tick motor w)

-- The write delay after `cycles` drive cycles, at two ticks to a cycle.
unfoldable pub run_delay : Wd177x → ℕ → Wd177x
run_delay w cycles = elim (w.dma) [
  | dma_idle ↦ w
  | write_delay n ↦
      let ticks = min (cycles * 2) 65535 in
      if leb n ticks
      then record w { dma = dma_idle; status = bit_and w.status (not8 st_busy) }
      else record w { dma = write_delay (n - ticks) }
]

unfoldable pub run_to : Wd177x → ℕ → Bool → Wd177x
run_to w clk motor =
    let cycles = clk - w.clk in
    let w1 = record w { clk = max w.clk clk } in
    let w2 = run_delay w1 cycles in
    let frac = w2.ms_frac + cycles in
    let w3 = record w2 { ms_frac = frac % cycles_per_ms } in
    if w.in_reset then w1 else ms_ticks motor (frac / cycles_per_ms) (step w3)
