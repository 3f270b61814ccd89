-- ===== src/Itu/Timer.antt =====
-- The periodic interrupt and the down counter of the ITU.
use native.Mathlib.Nat.{mod-lt, mod-eq_of_lt, mul-mod_left, div-add-mod', add-mul-mod_self_right}
use ue2_c64u_emulator.Base.{
  ℕ, ◌+◌, ◌-◌, ◌*◌, ◌/◌, ◌%◌, ◌≤◌, ◌<◌, ◌≡◌, sym, ap, ◌∙◌, arith, leb, some, Bool-cases,
  Option-cases, ◌↔◌, inl, inr, ◌⊎◌,
}
use ue2_c64u_emulator.Irq.{IrqState, pulse}
use ue2_c64u_emulator.Itu.{Itu, sync, reschedule, irq_timer_reload, timer_value}

-- The whole periods from the old pulse to the new one.
rounds :
    (period p now : ℕ)
    → 0 < period
    → p ≤ now
    → now + period - (now - p) % period - p ≡ ((now - p) / period + 1) * period
rounds period p now h k = omega (arith, div-add-mod' (now - p) period, mod-lt (now - p) h)

-- The rescheduled pulse is the first one after `now` in the phase of the old one.
pub reschedule_lem :
    (period p now : ℕ)
    → 0 < period
    → p ≤ now
    → (now < reschedule period p now)
      × (reschedule period p now ≤ now + period)
      × ((reschedule period p now - p) % period ≡ 0)
unfolding reschedule
reschedule_lem period p now h k = (
  omega (arith, mod-lt (now - p) h),
  omega arith,
  ap (λ t. t % period) (rounds period p now h k) ∙ mul-mod_left ((now - p) / period + 1) period,
)

-- Syncing at an earlier time first makes no difference to the schedule: pulses that a late caller
-- missed merge, and the phase is kept.
pub reschedule-reschedule :
    (period p mid now : ℕ)
    → 0 < period
    → p ≤ mid
    → reschedule period p mid ≤ now
    → reschedule period (reschedule period p mid) now ≡ reschedule period p now
unfolding reschedule
reschedule-reschedule period p mid now h k l = ap (λ r. now + period - r) same_phase
  where
    turns : ℕ
    turns = (mid - p) / period + 1

    later : mid + period - (mid - p) % period ≡ p + turns * period
    later = omega (arith, rounds period p mid h k, mod-lt (mid - p) h)

    same_phase : (now - (mid + period - (mid - p) % period)) % period ≡ (now - p) % period
    same_phase = rw later (
        sym (add-mul-mod_self_right (now - (p + turns * period)) turns period)
        ∙ ap (λ t. t % period) (omega (arith, later)))

-- Until the new pulse is due, the schedule is the same from every clock.
pub reschedule_between :
    (period p mid now : ℕ)
    → 0 < period
    → p ≤ mid
    → mid ≤ now
    → now < reschedule period p mid
    → reschedule period p now ≡ reschedule period p mid
unfolding reschedule
reschedule_between period p mid now h k l m = omega (arith, remainder, mod-lt (mid - p) h)
  where
    remainder : (now - p) % period ≡ (mid - p) % period + (now - mid)
    remainder =
        ap (λ t. t % period) (omega (arith, div-add-mod' (mid - p) period))
        ∙ add-mul-mod_self_right ((mid - p) % period + (now - mid)) ((mid - p) / period) period
        ∙ mod-eq_of_lt (omega (arith, mod-lt (mid - p) h))

period_pos : (t : Itu) → 0 < irq_timer_reload t + 1
period_pos t = omega arith

-- A sync before the pulse is due changes neither the schedule nor the interrupt core. At or after
-- it, low source 0 is pulsed once, however late the call is, and the next pulse is the first one
-- after `now` that is a whole number of periods after the old one.
pub sync_lem :
    (t : Itu) (now p : ℕ) (irq : IrqState)
    → t.next_pulse ≡ some p
    → ((now < p) × ((sync t now irq).0.next_pulse ≡ some p) × ((sync t now irq).1 ≡ irq))
      ⊎ ((p ≤ now)
          × ((sync t now irq).1 ≡ pulse irq 0)
          × ((q : ℕ) × ((sync t now irq).0.next_pulse ≡ some q)
              × (now < q)
              × (q ≤ now + (irq_timer_reload t + 1))
              × ((q - p) % (irq_timer_reload t + 1) ≡ 0)))
unfolding sync
sync_lem t now p irq e = elim (Bool-cases (leb p now)) [
  | inl due ↦
      let (after, soon, phase) =
        reschedule_lem (irq_timer_reload t + 1) p now (period_pos t) (ground arith) in
      inr (
        ground arith,
        ground arith,
        (reschedule (irq_timer_reload t + 1) p now, ground arith, after, soon, phase),
      )
  | inr early ↦ inl (ground arith, ground arith, ground arith)
]

-- Polling more often makes no difference: syncing at `mid` and then at `now` leaves the timer as
-- syncing at `now` alone does.
pub sync-sync :
    (t : Itu) (mid now : ℕ) (irq irq' : IrqState)
    → mid ≤ now
    → (sync (sync t mid irq).0 now irq').0 ≡ (sync t now irq').0
unfolding sync irq_timer_reload
sync-sync t mid now irq irq' h = elim (Option-cases t.next_pulse) [
  | inl stopped ↦ ground arith
  | inr running ↦ ground (
    arith,
    running.1,
    reschedule-reschedule (irq_timer_reload t + 1) running.0 mid now (omega arith),
    reschedule_between (irq_timer_reload t + 1) running.0 mid now (omega arith),
    reschedule_lem (irq_timer_reload t + 1) running.0 mid (omega arith),
  )
]

-- The down counter falls by one each 5 microseconds from what was written, and stops at 0; it reads
-- 0 exactly when the time has passed.
pub timer_value_lem :
    (t : Itu) (now : ℕ)
    → t.timer < 256
    → t.timer_written ≤ now
    → (timer_value t now ≡ t.timer - (now - t.timer_written) / 500)
      × ((timer_value t now ≡ 0) ↔ (t.timer_written + 500 * t.timer ≤ now))
unfolding timer_value
timer_value_lem t now h k = (omega arith, ((λ e. omega arith), λ e. omega arith))
