-- ===== src/SystemBus/Routes.antt =====
-- Where a byte on the I/O window goes: to the device that its window was mapped for, or to no device when
-- a block is absent or an access waits.
use ue2_c64u_emulator.Base.{
  ℕ, ◌+◌, ◌-◌, ◌<◌, ◌≤◌, ◌≡◌, refl, sym, ap, ◌∙◌, arith, Bool, true, false, ltb, Option, some, none,
  List, [], ◌∷◌, ◌++◌, length, get_elem?, set,
}
use ue2_c64u_emulator.SystemBus.IoMap.{
  IoMap, IoDevice, IoCtx, add, map, map_origin, resolve, relative, io_base, io_size,
}
use ue2_c64u_emulator.SystemBus.Windows.{
  IsWellFormed, resolve-map_origin, within, map_origin-Mapped, fits_place, get_elem?-append_last,
}
use ue2_c64u_emulator.SystemBus.Mirrors.{is_memory_lem}
use ue2_c64u_emulator.SystemBus.Access.{
  SystemBus, io, region, is_memory, record_access, record_if, absent_at, absent_access, context,
  returned, touched, device_read, device_write, io_read8, io_write8, read8, write8,
}

pub region_io : (addr : ℕ) → io_base ≤ addr → addr < io_base + io_size → region addr ≡ io
unfolding region
region_io addr h k =
    let m : is_memory addr ≡ false = ground (arith, is_memory_lem addr) in
    let r : ltb (relative addr) io_size ≡ true = ground arith in rw (m, r) refl

module _ {D : Type 0} (dev : IoDevice D) (mem_only : List D → Bool) where
  -- What a device has made of the bus.
  pub record Served (b c : SystemBus D) (i : ℕ) (d : D) (ctx : IoCtx) : Type 0 where
    pub devices : c.io.devices ≡ set b.io.devices i d
    pub memory : c.ram ≡ ctx.ram
    pub interrupts : c.irq ≡ ctx.irq
    pub cost : c.stall ≡ b.stall + ctx.stall

  recorded :
      (test : Bool) (b : SystemBus D) (i : ℕ) (d : D) (ctx : IoCtx) (write : Bool) (addr val : ℕ)
      (mapped on_io : Bool)
      → Served b (record_if test (returned b i d ctx) write addr val mapped on_io) i d ctx
  unfolding record_access
  recorded true b i d ctx write addr val mapped on_io = record {
    devices = refl;
    memory = refl;
    interrupts = refl;
    cost = refl;
  }
  recorded false b i d ctx write addr val mapped on_io = record {
    devices = refl;
    memory = refl;
    interrupts = refl;
    cost = refl;
  }

  module _ (b : SystemBus D) (addr i off : ℕ) (d : D) (at : resolve b.io addr ≡ some (i, off))
      (found : get_elem? b.io.devices i ≡ some d) (present : b.absent ≡ none)
      (ready : b.noack ≡ none) (on_io : region addr ≡ io) where
    reads_device : ◌≡◌ {A = ℕ × SystemBus D} (read8 dev mem_only b addr) (
        let r = dev.read8 d off (context b) in
        (r.0, record_if b.trace_io (returned (touched b) i r.1 r.2) false addr r.0 true true))
    unfolding read8 io_read8 absent_access absent_at device_read
    reads_device = ground arith

    writes_device :
        (val : ℕ)
        → write8 dev mem_only b addr val ≡ (
            let r = dev.write8 d off val (context b) in
            record_if b.trace_io (returned (touched b) i r.0 r.1) true addr val true true)
    unfolding write8 io_write8 absent_access absent_at device_write
    writes_device val = ground arith

  serve :
      {b c e : SystemBus D} {i : ℕ} {d : D} {ctx : IoCtx}
      → c ≡ e
      → Served (touched b) e i d ctx
      → Served b c i d ctx
  serve q s =
      rw q
        record { devices = s.devices; memory = s.memory; interrupts = s.interrupts; cost = s.cost }

  some_ne_none : {A : Type 0} {a : A} → none ≡ some a → ⊥
  some_ne_none h = cc

  index_lem :
      {i j : ℕ} {m n : IoMap D} → ◌≡◌ {A = Option (ℕ × IoMap D)} (some (i, m)) (some (j, n)) → i ≡ j
  index_lem h = cc

  map_lem :
      {i j : ℕ} {m n : IoMap D} → ◌≡◌ {A = Option (ℕ × IoMap D)} (some (i, m)) (some (j, n)) → m ≡ n
  map_lem h = cc

  -- The new device is the last, and the map is that of its window.
  add_lem :
      (m : IoMap D) (base size i : ℕ) (d : D) (m' : IoMap D)
      → add m base size d ≡ some (i, m')
      → (i ≡ length m.devices)
        × (map_origin
              (record m { devices = m.devices ++ (d ∷ []) })
              base
              size
              (length m.devices)
              base
            ≡ some m')
  unfolding add map
  add_lem m base size i d m' h = placed _ refl h
    where
      placed :
          (o : Option (IoMap D))
          → map_origin
              (record m { devices = m.devices ++ (d ∷ []) })
              base
              size
              (length m.devices)
              base
            ≡ o
          → ◌≡◌ {A = Option (ℕ × IoMap D)}
              (elim o as (λ t. Option (ℕ × IoMap D)) [
                | some m1 ↦ some (length m.devices, m1)
                | none ↦ none
              ])
              (some (i, m'))
          → (i ≡ length m.devices)
            × (map_origin
                  (record m { devices = m.devices ++ (d ∷ []) })
                  base
                  size
                  (length m.devices)
                  base
                ≡ some m')
      placed none e k = absurd (some_ne_none k)
      placed (some m1) e k = (sym (index_lem k), e ∙ ap some (map_lem k))

  -- A device that is added to the map serves every byte of its window, and no other device is
  -- changed: a read answers what the device does for the offset in the window, with the
  -- memory, the interrupts and the cost as the device leaves them, and so does a write,
  -- when no block is absent and no access waits.
  pub add-serves :
      (m : IoMap D) (base size i : ℕ) (d : D) (b : SystemBus D) (addr val : ℕ)
      → IsWellFormed m
      → length m.windows < 65535
      → add m base size d ≡ some (i, b.io)
      → within base size addr ≡ true
      → b.absent ≡ none
      → b.noack ≡ none
      → let r = dev.read8 d (addr - base) (context b) in
        let w = dev.write8 d (addr - base) val (context b) in
        ((read8 dev mem_only b addr).0 ≡ r.0)
        × Served b (read8 dev mem_only b addr).1 i r.1 r.2
        × Served b (write8 dev mem_only b addr val) i w.0 w.1
  add-serves m base size i d b addr val v n h in_window present ready =
      let a = add_lem m base size i d b.io h in
      let m1 = record m { devices = m.devices ++ (d ∷ []) } in
      let done = map_origin-Mapped m1 b.io base size (length m.devices) base a.1 in
      let p = fits_place base size base done.place in
      let wide : addr < 0x100000000 = ground (arith, p.2) in
      let at : resolve b.io addr ≡ some (i, addr - base) =
        resolve-map_origin m1 b.io base size (length m.devices) base record { named = v.named } n
          a.1 addr wide
        ∙ rw (in_window, a.0) refl in
      let found : get_elem? b.io.devices i ≡ some d =
        ap (λ (t : List D). get_elem? t i) done.same_devices
        ∙ ap (get_elem? (m.devices ++ (d ∷ []))) a.0
        ∙ get_elem?-append_last m.devices d in
      let on_io = region_io addr (ground (arith, p.1)) (ground (arith, p.2)) in
      let r = reads_device b addr i (addr - base) d at found present ready on_io in
      let w = writes_device b addr i (addr - base) d at found present ready on_io val in
      (
        ap (λ (t : ℕ × SystemBus D). t.0) r,
        serve (ap (λ (t : ℕ × SystemBus D). t.1) r)
            (recorded b.trace_io (touched b) i _ _ false addr _ true true),
        serve w (recorded b.trace_io (touched b) i _ _ true addr val true true),
      )
