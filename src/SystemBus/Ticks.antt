-- ===== src/SystemBus/Ticks.antt =====
-- Deadlines: what is due is ticked, in the order of installation.
use ue2_c64u_emulator.Base.{
  ℕ, ◌<◌, ◌≡◌, refl, ap, arith, min, Bool, true, false, leb, if◌then◌else◌, if_elim, if_cases,
  Option, some, none, List, [], ◌∷◌, All,
}
use ue2_c64u_emulator.SystemBus.IoMap.{IoDevice, IoCtx}
use ue2_c64u_emulator.SystemBus.Access.{SystemBus}

-- `u64::MAX`
abbrev pub never : ℕ
never = 0xffffffffffffffff

abbrev pub sooner : Option ℕ → Option ℕ → Option ℕ
sooner none later = later
sooner (some t) none = some t
sooner (some t) (some u) = some (min t u)

abbrev pub comes_due : ℕ → Option ℕ → Bool
comes_due now none = false
comes_due now (some t) = leb t now

-- A time that is not due at `now` is none or later.
sooner_split :
    (e r : Option ℕ) (now : ℕ)
    → comes_due now (sooner e r) ≡ false
    → (comes_due now e ≡ false) × (comes_due now r ≡ false)
sooner_split none r now h = (refl, h)
sooner_split (some t) none now h = (h, refl)
sooner_split (some t) (some u) now h = (ground arith, ground arith)

sooner_both :
    (e r : Option ℕ) (now : ℕ)
    → comes_due now e ≡ false
    → comes_due now r ≡ false
    → comes_due now (sooner e r) ≡ false
sooner_both none r now h k = k
sooner_both (some t) none now h k = h
sooner_both (some t) (some u) now h k = ground arith

module _ {D : Type 0} (dev : IoDevice D) where
  unfoldable pub earliest : List D → Option ℕ
  earliest [] = none
  earliest (d ∷ ds) = sooner (dev.next_event d) (earliest ds)

  unfoldable pub next_deadline : SystemBus D → ℕ
  next_deadline b = elim (earliest b.io.devices) [ none ↦ never | some t ↦ t ]

  -- `next_event().is_some_and(|t| t <= now)`
  abbrev pub is_due : ℕ → D → Bool
  is_due now d = comes_due now (dev.next_event d)

  abbrev pub tick_context : SystemBus D → IoCtx
  tick_context b = record {
    now = b.now;
    pc = 0;
    ram = b.ram;
    irq = b.irq;
    console = b.console;
    stall = 0;
  }

  -- The bus after a device's tick; what the tick cost is dropped.
  abbrev pub ticked : SystemBus D → IoCtx → SystemBus D
  ticked b ctx = record b { ram = ctx.ram; irq = ctx.irq; console = ctx.console }

  unfoldable pub tick_devices : List D → SystemBus D → List D × SystemBus D
  tick_devices [] b = ([], b)
  tick_devices (d ∷ ds) b =
      let r = dev.tick d (tick_context b) in
      let more = tick_devices ds (ticked b r.1) in
      let same = tick_devices ds b in
      if is_due b.now d then (r.0 ∷ more.0, more.1) else (d ∷ same.0, same.1)

  unfoldable pub tick_due : SystemBus D → SystemBus D
  tick_due b =
      let r = tick_devices b.io.devices (record b { idle_dirty = true }) in
      record r.1 { io = record r.1.io { devices = r.0 } }

  -- Nothing of the list is due at a time.
  abbrev IsLater : ℕ → List D → Type 0
  IsLater now ds = All (λ d. is_due now d ≡ false) ds

  none_due : (ds : List D) (now : ℕ) → comes_due now (earliest ds) ≡ false → IsLater now ds
  unfolding earliest
  none_due [] now h = tt
  none_due (d ∷ ds) now h =
      let both = sooner_split (dev.next_event d) (earliest ds) now h in
      (both.0, none_due ds now both.1)

  earliest_beyond : (ds : List D) (now : ℕ) → IsLater now ds → comes_due now (earliest ds) ≡ false
  unfolding earliest
  earliest_beyond [] now h = refl
  earliest_beyond (d ∷ ds) now h =
      sooner_both (dev.next_event d) (earliest ds) now h.0 (earliest_beyond ds now h.1)

  tick_devices_none :
      (ds : List D) (b : SystemBus D)
      → IsLater b.now ds
      → ◌≡◌ {A = List D × SystemBus D} (tick_devices ds b) (ds, b)
  unfolding tick_devices
  tick_devices_none [] b h = refl
  tick_devices_none (d ∷ ds) b h = rw (h.0, tick_devices_none ds b h.1) refl

  before :
      (o : Option ℕ) {now : ℕ}
      → now < (elim o [ none ↦ never | some t ↦ t ])
      → comes_due now o ≡ false
  before none h = refl
  before (some t) h = ground arith

  -- Before the deadline a tick changes no device and nothing else but the mark for the idle skip.
  pub tick_due-next_deadline :
      (b : SystemBus D) → b.now < next_deadline b → tick_due b ≡ record b { idle_dirty = true }
  unfolding tick_due next_deadline
  tick_due-next_deadline b h = ap finish (
      tick_devices_none b.io.devices (record b { idle_dirty = true })
        (none_due b.io.devices b.now (before (earliest b.io.devices) h)))
    where
      finish : List D × SystemBus D → SystemBus D
      finish r = record r.1 { io = record r.1.io { devices = r.0 } }

  tick_devices-now : (ds : List D) (b : SystemBus D) → (tick_devices ds b).1.now ≡ b.now
  unfolding tick_devices
  tick_devices-now [] b = refl
  tick_devices-now (d ∷ ds) b =
      if_elim (λ (r : List D × SystemBus D). r.1.now ≡ b.now) (is_due b.now d) _ _
        (tick_devices-now ds (ticked b (dev.tick d (tick_context b)).1)) (tick_devices-now ds b)

  module _ (goes_on : (d : D) (ctx : IoCtx) → is_due ctx.now (dev.tick d ctx).0 ≡ false) where
    ticked-IsLater : (ds : List D) (b : SystemBus D) → IsLater b.now (tick_devices ds b).0
    unfolding tick_devices
    ticked-IsLater [] b = tt
    ticked-IsLater (d ∷ ds) b =
        if_cases (λ (r : List D × SystemBus D). IsLater b.now r.0) (is_due b.now d) _ _
          (λ due. (
            goes_on d (tick_context b),
            ticked-IsLater ds (ticked b (dev.tick d (tick_context b)).1),
          ))
          (λ later. (later, ticked-IsLater ds b))

    -- When every device that is ticked asks for no tick at once, then after a tick of what is due the
    -- next deadline lies in the future, for times below the largest.
    pub next_deadline-tick_due :
        (b : SystemBus D) → b.now < never → (tick_due b).now < next_deadline (tick_due b)
    unfolding tick_due next_deadline
    next_deadline-tick_due b h =
        let c = record b { idle_dirty = true } in
        let e = tick_devices-now b.io.devices c in
        after (earliest (tick_devices b.io.devices c).0) (omega arith) (
          rw e
            (earliest_beyond (tick_devices b.io.devices c).0 b.now (ticked-IsLater b.io.devices c)))
      where
        after :
            (o : Option ℕ) {now : ℕ}
            → now < never
            → comes_due now o ≡ false
            → now < (elim o [ none ↦ never | some t ↦ t ])
        after none h k = h
        after (some t) h k = ground arith
