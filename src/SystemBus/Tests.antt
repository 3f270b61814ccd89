-- ===== src/SystemBus/Tests.antt =====
-- A small machine of one kind of device, and the theorems at concrete buses.
use ue2_c64u_emulator.Base.{
  ℕ, ◌+◌, ◌%◌, ◌<◌, ◌≡◌, ◌↔◌, inl, refl, arith, Bool, true, false, if◌then◌else◌, Option, some,
  none, List, [], ◌∷◌, store, ◌==◌,
}
use ue2_c64u_emulator.Irq
use ue2_c64u_emulator.Rv32.Bus
use ue2_c64u_emulator.SystemBus.IoMap
use ue2_c64u_emulator.SystemBus.IoMap.{
  IoMap, IoDevice, IoCtx, map_origin, resolve, add, map, claim_grains,
}
use ue2_c64u_emulator.SystemBus.Windows.{IsWellFormed, within}
use ue2_c64u_emulator.SystemBus.Overlap.{IsPlaced, map_origin_iff}
use ue2_c64u_emulator.SystemBus.Access.{SystemBus, region, read8, write8, ram_span, context}
use ue2_c64u_emulator.SystemBus.Absent.{NoAck, core}
use ue2_c64u_emulator.SystemBus.Wide.{read16, write16, read32, write32, fetch}
use ue2_c64u_emulator.SystemBus.Halfwords.{wide_lem}
use ue2_c64u_emulator.SystemBus.Ticks.{next_deadline, tick_due, next_deadline-tick_due}
use ue2_c64u_emulator.SystemBus.Routes.{add-serves, Served, region_io}
use ue2_c64u_emulator.SystemBus.Stalls.{unserved, Unserved, Untouched}
use ue2_c64u_emulator.SystemBus.Fetch.{fetch-write32}
use ue2_c64u_emulator.SystemBus.Plain.{mirror-IsRam}
use ue2_c64u_emulator.Rv32.LoadStore.{read32-write32}

-- A device that is one number: what was written last, and the time at which it wants to be ticked.
abbrev cell : IoDevice ℕ
cell = record {
  read8 = λ d off ctx. ((d + off) % 256, d, ctx);
  write8 = λ d off val ctx. (val, ctx);
  next_event = λ d. some d;
  tick = λ d ctx. (ctx.now + 1, ctx);
}

abbrev mem_only : List ℕ → Bool
mem_only ds = false

abbrev empty : IoMap ℕ
empty = IoMap.new

abbrev bus : IoMap ℕ → Option NoAck → SystemBus ℕ
bus m noack = record {
  ram = λ i. 0;
  io = m;
  irq = Irq.new;
  console = [];
  now = 5;
  pc = 0;
  io_touched = false;
  stall = 0;
  trace_io = false;
  log_unmapped = true;
  accesses = [];
  unmapped = λ a. record { reads = 0; writes = 0 };
  idle_dirty = false;
  absent = none;
  noack = noack;
}

-- One device at the start of the window, in one page.
abbrev one : IoMap ℕ
one = record {
  grains = λ g. if g == 0 then 1 else 0;
  windows = record { base = 0x10000000; dev = 0 } ∷ [];
  devices = 7 ∷ [];
}

one-IsWellFormed : IsWellFormed one
one-IsWellFormed = record { named = λ g. ground arith }

empty-IsWellFormed : IsWellFormed empty
unfolding IoMap.new
empty-IsWellFormed = record { named = λ g. omega arith }

-- The same with a second window, of two pages, onto the device.
abbrev two : IoMap ℕ
two = record {
  grains = store (store one.grains 2 2) 3 2;
  windows = record { base = 0x10000000; dev = 0 } ∷ record { base = 0x10000100; dev = 0 } ∷ [];
  devices = 7 ∷ [];
}

two-maps : map_origin one 0x10000200 0x200 0 0x10000100 ≡ some two
unfolding map_origin claim_grains store
two-maps = refl

map_origin_iff_example :
    ((m' : IoMap ℕ) × (map_origin one 0x10000080 0x100 0 0x10000080 ≡ some m')) ↔ (
      IsPlaced 0x10000080 0x100 0x10000080
      × ((addr : ℕ) → within 0x10000080 0x100 addr ≡ true → resolve one addr ≡ none))
map_origin_iff_example = map_origin_iff one 0x10000080 0x100 0 0x10000080 one-IsWellFormed

wide_lem_example :
    (read16 cell mem_only (bus one none) 0x03ffffff
      ≡ Bus.read16 (read8 cell mem_only) (bus one none) 0x03ffffff)
    × (read32 cell mem_only (bus one none) 0x03ffffff
        ≡ Bus.read32 (read8 cell mem_only) (bus one none) 0x03ffffff)
    × (write16 cell mem_only (bus one none) 0x03ffffff 0x1122
        ≡ Bus.write16 (write8 cell mem_only) (bus one none) 0x03ffffff 0x1122)
    × (write32 cell mem_only (bus one none) 0x03ffffff 0x1122
        ≡ Bus.write32 (write8 cell mem_only) (bus one none) 0x03ffffff 0x1122)
wide_lem_example =
    wide_lem cell mem_only (λ d off ctx. omega arith) (λ d off ctx h. h) (bus one none) 0x03ffffff
      0x1122 (omega arith) (λ i. omega arith)

next_deadline-tick_due_example :
    (tick_due cell (bus two none)).now < next_deadline cell (tick_due cell (bus two none))
next_deadline-tick_due_example =
    next_deadline-tick_due cell (λ d ctx. ground arith) (bus two none) (omega arith)

abbrev added : IoMap ℕ
added = record {
  grains = store (λ g. 0) 4 1;
  windows = record { base = 0x10000400; dev = 0 } ∷ [];
  devices = 9 ∷ [];
}

added-adds : ◌≡◌ {A = Option (ℕ × IoMap ℕ)} (add empty 0x10000400 0x100 9) (some (0, added))
unfolding add map map_origin claim_grains IoMap.new
added-adds = refl

add-serves_example :
    ((read8 cell mem_only (bus added none) 0x10000403).0 ≡ 12)
    × Served cell mem_only
        (bus added none)
        (read8 cell mem_only (bus added none) 0x10000403).1
        0
        9
        (context (bus added none))
    × Served cell mem_only
        (bus added none)
        (write8 cell mem_only (bus added none) 0x10000403 1)
        0
        1
        (context (bus added none))
unfolding IoMap.new
add-serves_example =
    add-serves cell mem_only empty 0x10000400 0x100 0 9 (bus added none) 0x10000403 1
      empty-IsWellFormed (omega arith) added-adds refl refl refl

-- An access of the absent core that is never acknowledged.
abbrev stalled : NoAck
stalled = record { block = core; addr = 0x10020000; write = false; val = 0; pc = 0x100; now = 5 }

unserved_example :
    Unserved cell mem_only
      (bus one (some stalled))
      (read8 cell mem_only (bus one (some stalled)) 0x10000000)
    × Untouched
        (bus one (some stalled))
        (write8 cell mem_only (bus one (some stalled)) 0x10000000 3)
unserved_example =
    unserved cell mem_only (bus one (some stalled)) 0x10000000 3
      (region_io 0x10000000 (omega arith) (omega arith)) (inl (stalled, refl))

span_test : ram_span 0x04000000 4 ≡ some 0
unfolding ram_span
span_test = refl

fetch-write32_example :
    ((read32 cell mem_only (write32 cell mem_only (bus one none) 0x04000000 0x13) 0x04000000).0
      ≡ 0x13)
    × ((fetch (write32 cell mem_only (bus one none) 0x04000000 0x13) 0x30000000).0 ≡ 0x13)
fetch-write32_example =
    fetch-write32 cell mem_only (bus one none) 0x04000000 0 0x13 0x30000000 span_test (omega arith)
      (omega arith) refl

-- The processor's default wide accesses over the bus, across the end of a page of the memory's third
-- mirror.
read32-write32_example :
    (Bus.read32
      (read8 cell mem_only)
      (Bus.write32 (write8 cell mem_only) (bus one none) 0x80ffffe 0x12345678)
      0x80ffffe).0
    ≡ 0x12345678
unfolding region
read32-write32_example =
    read32-write32 (mirror-IsRam cell mem_only 2) (bus one none) 0x80ffffe 0x12345678 (omega arith)
      (omega arith) (refl, refl) (refl, refl) (refl, refl) (refl, refl)
