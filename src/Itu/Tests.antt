-- ===== src/Itu/Tests.antt =====
-- The timers' theorems at concrete clocks.
use ue2_c64u_emulator.Base.{ℕ, ◌+◌, ◌-◌, ◌%◌, ◌≤◌, ◌<◌, ◌≡◌, ◌⊎◌, refl, some, none, true, false}
use ue2_c64u_emulator.Irq
use ue2_c64u_emulator.Irq.{pulse}
use ue2_c64u_emulator.Itu.{Itu, sync, irq_timer_reload}
use ue2_c64u_emulator.Itu.Timer.{sync_lem}

-- The periodic interrupt runs with the shortest period, 256 clocks, and is due at 1000; the down
-- counter holds 10 since clock 0.
abbrev running_timer : Itu
running_timer = record {
  capabilities = 0;
  menu_button = false;
  esp = none;
  timer = 10;
  timer_written = 0;
  irq_timer_en = true;
  irq_timer_select = false;
  irq_timer_val = 0;
  irq_timer_frozen = 0;
  next_pulse = some 1000;
  synced = 0;
}

sync_lem_example :
    ((1600 < 1000)
      × ((sync running_timer 1600 Irq.new).0.next_pulse ≡ some 1000)
      × ((sync running_timer 1600 Irq.new).1 ≡ Irq.new))
    ⊎ ((1000 ≤ 1600)
        × ((sync running_timer 1600 Irq.new).1 ≡ pulse Irq.new 0)
        × ((q : ℕ) × ((sync running_timer 1600 Irq.new).0.next_pulse ≡ some q)
            × (1600 < q)
            × (q ≤ 1600 + (irq_timer_reload running_timer + 1))
            × ((q - 1000) % (irq_timer_reload running_timer + 1) ≡ 0)))
sync_lem_example = sync_lem running_timer 1600 1000 Irq.new refl
