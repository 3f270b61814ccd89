-- ===== src/SystemBus/Access.antt =====
-- The bus: what decodes a byte's address, and what each access of a byte does.
use ue2_c64u_emulator.Base.{
  ℕ, ◌+◌, ◌/◌, ◌%◌, bit_and, Bool, true, false, not, ◌&&◌, ◌||◌, ◌==◌, leb, ltb, if◌then◌else◌,
  Option, some, none, List, [], ◌∷◌, ◌++◌, get_elem?, set, Memory, store,
}
use ue2_c64u_emulator.Irq.{IrqState}
use ue2_c64u_emulator.SystemBus.IoMap.{IoMap, IoDevice, IoCtx, resolve, relative, io_size}
use ue2_c64u_emulator.SystemBus.Absent.{
  AbsentMap, NoAck, Block, Mode, hit, is_no_ack, is_block, core,
}

abbrev pub ram_size : ℕ
ram_size = 0x4000000

abbrev pub io_bit : ℕ
io_bit = 0x10000000

abbrev pub boot_bram_page : ℕ
boot_bram_page = 0x8000

abbrev pub unmapped_report_limit : ℕ
unmapped_report_limit = 4

pub record Access : Type 0 where
  pub write : Bool
  pub addr : ℕ
  pub val : ℕ
  pub pc : ℕ
  pub trace : Bool
  pub unmapped : Bool
  pub now : ℕ

pub record UnmappedCount : Type 0 where
  pub reads : ℕ
  pub writes : ℕ

pub record SystemBus (D : Type 0) : Type 0 where
  pub ram : Memory
  pub io : IoMap D
  pub irq : IrqState
  pub console : List ℕ
  pub now : ℕ
  pub pc : ℕ
  pub io_touched : Bool
  pub stall : ℕ
  pub trace_io : Bool
  pub log_unmapped : Bool
  pub accesses : List Access
  pub unmapped : ℕ → UnmappedCount
  pub idle_dirty : Bool
  pub absent : Option AbsentMap
  pub noack : Option NoAck

pub data Region : Type 0 where
  ram : ℕ → Region
  io : Region
  open_bus : Region

-- Bit 28 of an address is clear: `addr & IO_BIT == 0`.
abbrev pub is_memory : ℕ → Bool
is_memory addr = bit_and addr io_bit == 0

-- `addr & RAM_MASK`
abbrev pub ram_index : ℕ → ℕ
ram_index addr = addr % ram_size

unfoldable pub region : ℕ → Region
region addr =
    if is_memory addr
    then (if addr / 65536 == boot_bram_page then open_bus else ram (ram_index addr))
    else if ltb (relative addr) io_size
    then io
    else open_bus

-- The memory index of an access of `len` bytes that stays inside one mirror of the memory.
unfoldable pub ram_span : ℕ → ℕ → Option ℕ
ram_span addr len =
    if is_memory addr && not (addr / 65536 == boot_bram_page) && leb (ram_index addr + len) ram_size
    then some (ram_index addr)
    else none

module _ {D : Type 0} where
  unfoldable pub record_access : SystemBus D → Bool → ℕ → ℕ → Bool → Bool → SystemBus D
  record_access b write addr val mapped on_io =
      let old = b.unmapped addr in
      let count =
        if write
        then record old { writes = old.writes + 1 }
        else record old { reads = old.reads + 1 } in
      let counted = not mapped && b.log_unmapped in
      let unmapped = counted && leb (count.reads + count.writes) unmapped_report_limit in
      let trace = on_io && b.trace_io in
      record b {
        unmapped = if counted then (λ a. if a == addr then count else b.unmapped a) else b.unmapped;
        accesses =
            if trace || unmapped
            then b.accesses
              ++ (record {
                write = write;
                addr = addr;
                val = val;
                pc = b.pc;
                trace = trace;
                unmapped = unmapped;
                now = b.now;
              }
                  ∷ [])
            else b.accesses;
      }

  -- `if test { self.record(...) }`
  abbrev pub record_if : Bool → SystemBus D → Bool → ℕ → ℕ → Bool → Bool → SystemBus D
  record_if test b write addr val mapped on_io =
      if test then record_access b write addr val mapped on_io else b

  unfoldable pub absent_at : SystemBus D → ℕ → Option (Block × Mode)
  absent_at b addr = elim (b.absent) [ none ↦ none | some m ↦ hit m addr ]

  -- The context that an access hands to a device.
  abbrev pub context : SystemBus D → IoCtx
  context b = record {
    now = b.now;
    pc = b.pc;
    ram = b.ram;
    irq = b.irq;
    console = b.console;
    stall = 0;
  }

  -- The bus after a device has had the context.
  abbrev pub returned : SystemBus D → ℕ → D → IoCtx → SystemBus D
  returned b i d ctx = record b {
    ram = ctx.ram;
    irq = ctx.irq;
    console = ctx.console;
    stall = b.stall + ctx.stall;
    io = record b.io { devices = set b.io.devices i d };
  }

  abbrev pub touched : SystemBus D → SystemBus D
  touched b = record b { io_touched = true; idle_dirty = true }

-- `mem_only` tells what the register of the device that serves the Commodore 64's port holds.
module _ {D : Type 0} (dev : IoDevice D) (mem_only : List D → Bool) where
  -- What a byte in an absent block's window gets; one that waits is remembered.
  unfoldable pub answer_absent : SystemBus D → Block → Mode → ℕ → Bool → ℕ → ℕ × SystemBus D
  answer_absent b block mode addr write val =
      let waits = record b {
        noack =
            some record {
              block = block;
              addr = addr;
              write = write;
              val = val;
              pc = b.pc;
              now = b.now;
            };
      } in
      if is_block block core
        && is_no_ack mode
        && not write
        && leb 0x1005d400 addr
        && ltb addr 0x1005d800
        && not (mem_only b.io.devices)
      then (0xff, record_if b.trace_io b false addr 0xff true true)
      else (
        0,
        record_if b.trace_io (if is_no_ack mode then waits else b) write addr
            (if write then val else 0) true true,
      )

  -- A byte in an absent window, or any after one that is never acknowledged in the same instruction.
  unfoldable pub absent_access : SystemBus D → ℕ → Bool → ℕ → Option (ℕ × SystemBus D)
  absent_access b addr write val = elim (b.noack) [
    | some n ↦ some (0, b)
    | none ↦ elim (absent_at b addr) [
      | none ↦ none
      | some (block, mode) ↦ some (answer_absent b block mode addr write val)
    ]
  ]

  -- A byte that no absent block takes.
  unfoldable pub device_read : SystemBus D → ℕ → ℕ × SystemBus D
  device_read b addr = elim (resolve b.io addr) [
    | none ↦ (0, record_if (b.trace_io || b.log_unmapped) b false addr 0 false true)
    | some (i, off) ↦ elim (get_elem? b.io.devices i) [
      | none ↦ (0, b)
      | some d ↦
          let r = dev.read8 d off (context b) in
          (r.0, record_if b.trace_io (returned b i r.1 r.2) false addr r.0 true true)
    ]
  ]

  unfoldable pub io_read8 : SystemBus D → ℕ → ℕ × SystemBus D
  io_read8 b addr = elim (absent_access (touched b) addr false 0) [
    | some r ↦ r
    | none ↦ device_read (touched b) addr
  ]

  unfoldable pub device_write : SystemBus D → ℕ → ℕ → SystemBus D
  device_write b addr val = elim (resolve b.io addr) [
    | none ↦ record_if (b.trace_io || b.log_unmapped) b true addr val false true
    | some (i, off) ↦ elim (get_elem? b.io.devices i) [
      | none ↦ b
      | some d ↦
          let r = dev.write8 d off val (context b) in
          record_if b.trace_io (returned b i r.0 r.1) true addr val true true
    ]
  ]

  unfoldable pub io_write8 : SystemBus D → ℕ → ℕ → SystemBus D
  io_write8 b addr val = elim (absent_access (touched b) addr true val) [
    | some r ↦ r.1
    | none ↦ device_write (touched b) addr val
  ]

  -- The monitor's way in: whether the address is a device's, and the bus.
  unfoldable pub poke_io8 : SystemBus D → ℕ → ℕ → Bool × SystemBus D
  poke_io8 b addr val =
      let on_io : Bool = elim (region addr) [ io ↦ true | _ ↦ false ] in
      let mapped : Bool = elim (resolve b.io addr) [ some r ↦ true | none ↦ false ] in
      let present : Bool = elim (absent_at b addr) [ none ↦ true | some r ↦ false ] in
      if on_io && mapped && present then (true, io_write8 b addr val) else (false, b)

  unfoldable pub read8 : SystemBus D → ℕ → ℕ × SystemBus D
  read8 b addr = elim (region addr) [
    | ram i ↦ (b.ram i, b)
    | io ↦ io_read8 b addr
    | open_bus ↦ (0, record_if b.log_unmapped b false addr 0 false false)
  ]

  unfoldable pub write8 : SystemBus D → ℕ → ℕ → SystemBus D
  write8 b addr val = elim (region addr) [
    | ram i ↦ record b { ram = store b.ram i val; idle_dirty = true }
    | io ↦ io_write8 b addr val
    | open_bus ↦ record_if b.log_unmapped b true addr val false false
  ]
