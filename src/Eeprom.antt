-- ===== src/Eeprom.antt =====
-- crates/c64-bridge/src/cart_eeprom.rs: the GMOD2 serial EEPROM, a microwire state machine in front of
-- 2 KB of memory that the firmware also reads and writes.
pub mod Settle
pub mod Writes
mod Tests
use ue2_c64u_emulator.Base.{
  ℕ, zero, suc, ◌+◌, ◌-◌, ◌*◌, ◌/◌, ◌%◌, ◌^◌, bit_and, bit_or, Bool, true, false, not, ◌&&◌, ◌||◌,
  ◌==◌, if◌then◌else◌, bool_eq, ltb, from_bool, has, u8, u16, Option, none, some, Memory, store,
}

-- `EEPROM_SIZE`
abbrev pub eeprom_size : ℕ
eeprom_size = 0x800

abbrev pub mem_bit : ℕ
mem_bit = 0x800

pub data State : Type 0 where
  idle selected instruction decode collect_data wait_deselect execute error fill write2 reading :
      State

-- The memory is an array of `eeprom_size` bytes. The write log is not kept.
pub record Eeprom : Type 0 where
  pub mem : Memory
  pub dirty : Bool
  pub state : State
  pub count : ℕ
  pub instr : ℕ
  pub data_word : ℕ
  pub write_enable : Bool
  pub address : ℕ
  pub data_out : Bool
  pub sel : Bool
  pub clk : Bool
  pub din : Bool
  pub load : Bool

unfoldable pub new : Eeprom
new = record {
  mem = λ a. 0xff;
  dirty = false;
  state = idle;
  count = 0;
  instr = 0;
  data_word = 0xffff;
  write_enable = false;
  address = 0;
  data_out = true;
  sel = false;
  clk = false;
  din = false;
  load = false;
}

unfoldable pub poke : Eeprom → ℕ → ℕ → Eeprom
poke e addr val =
    if ltb addr eeprom_size then record e { mem = store e.mem addr val; dirty = true } else e

unfoldable pub io_read : Eeprom → ℕ → ℕ
io_read e off = if has off mem_bit then e.mem (off % 2048) else from_bool e.dirty

unfoldable pub io_write : Eeprom → ℕ → ℕ → Eeprom
io_write e off val =
    if has off mem_bit
    then record e { mem = store e.mem (off % 2048) val }
    else record e { dirty = false }

-- The byte that a requested read loads, before the clock does anything else.
unfoldable pub load_byte : Eeprom → Eeprom
load_byte e = elim (e.state) [
  | reading ↦
      if e.load
      then record e {
        data_word = e.data_word / 256 * 256 + e.mem e.address;
        count = 7;
        load = false;
      }
      else e
  | _ ↦ record e { load = false }
]

-- A write that the clock makes, if writing is enabled, at the address that it leaves.
unfoldable pub commit : Eeprom → Option ℕ → Eeprom
commit e none = e
commit e (some byte) =
    if e.write_enable then record e { mem = store e.mem e.address byte; dirty = true } else e

unfoldable pub start_command : Eeprom → Eeprom
start_command e =
    let i = e.instr in
    if i / 2 ^ 10 == 1 || i / 2 ^ 8 == 1
    then record e { count = 15; state = collect_data }
    else if i / 2 ^ 10 == 2
    then record e { count = 15; address = i % 1024 * 2; load = true; state = reading }
    else record e { count = 15; state = wait_deselect }

-- WRITE and ERASE of one word write the high byte now, the low byte in `write2`.
unfoldable pub run_command : Eeprom → Eeprom × Option ℕ
run_command e =
    let i = e.instr in
    if has i 0x400
    then (
      record e { data_out = false; address = i % 1024 * 2; state = write2 },
      some (e.data_word / 256),
    )
    else if i / 2 ^ 8 == 3
    then (record e { data_out = false; write_enable = true; state = idle }, none)
    else if i / 2 ^ 8 == 0
    then (record e { data_out = false; write_enable = false; state = idle }, none)
    else if i / 2 ^ 8 == 2 || i / 2 ^ 8 == 1
    then (record e { data_out = false; address = 0; state = fill }, none)
    else (record e { data_out = false; state = idle }, none)

-- The `match` on the state: the registers after the clock, and the byte to write.
unfoldable pub transition : State → Eeprom → Bool → Eeprom × Option ℕ
transition idle e rising = (
  record e {
    count = 11;
    data_out = true;
    data_word = 0xffff;
    state = if e.sel then selected else idle;
  },
  none,
)
transition selected e rising = (
  if not e.sel
      then record e { state = idle }
      else if rising
      then record e { state = if e.din then instruction else error }
      else e,
  none,
)
transition instruction e rising = (
  if not e.sel
      then record e { state = idle }
      else if rising
      then (let i = (e.instr * 2 + from_bool e.din) % 4096 in
          if e.count == 0
          then record e { instr = i; state = decode }
          else record e { instr = i; count = e.count - 1 })
      else e,
  none,
)
transition decode e rising = (start_command e, none)
transition collect_data e rising = (
  if not e.sel
      then record e { state = idle }
      else if rising
      then (let w = u16 (e.data_word * 2 + from_bool e.din) in
          if e.count == 0
          then record e { data_word = w; state = wait_deselect }
          else record e { data_word = w; count = e.count - 1 })
      else e,
  none,
)
transition wait_deselect e rising = (
  if rising
      then record e { state = error }
      else if not e.sel
      then record e { state = execute }
      else e,
  none,
)
transition execute e rising = run_command e
transition error e rising = (if not e.sel then record e { state = idle } else e, none)
transition fill e rising =
    let byte : ℕ = if e.address % 2 == 1 then u8 e.data_word else e.data_word / 256 in
    (
      if e.address == 0x7ff
          then record e { state = idle }
          else record e { address = e.address + 1 },
      some byte,
    )
transition write2 e rising =
    (record e { address = e.address / 2 * 2 + 1; state = idle }, some (u8 e.data_word))
transition reading e rising = (
  if not e.sel
      then record e { state = idle }
      else if rising
      then (let out = e.data_word / 2 ^ e.count % 2 == 1 in
          if e.count == 0
          then record e { data_out = out; address = (e.address + 1) % 2048; load = true }
          else record e { data_out = out; count = e.count - 1 })
      else e,
  none,
)

-- One clock of the state machine.
unfoldable pub step : Eeprom → Bool → Eeprom
step e rising =
    let e' = load_byte e in let (after, write) = transition e'.state e' rising in commit after write

unfoldable pub is_busy : State → Bool
is_busy decode = true
is_busy execute = true
is_busy fill = true
is_busy write2 = true
is_busy _ = false

unfoldable pub same_state : State → State → Bool
same_state idle idle = true
same_state selected selected = true
same_state instruction instruction = true
same_state decode decode = true
same_state collect_data collect_data = true
same_state wait_deselect wait_deselect = true
same_state execute execute = true
same_state error error = true
same_state fill fill = true
same_state write2 write2 = true
same_state reading reading = true
same_state _ _ = false

-- The test that ends the loop of `settle`, on the state before a clock and the registers after it.
unfoldable pub is_settled : State → Eeprom → Bool
is_settled before e = not (is_busy e.state) && not e.load && same_state e.state before

-- Clocks without an edge, at most `fuel` of them.
unfoldable pub settle_for : ℕ → Eeprom → Eeprom
settle_for zero e = e
settle_for (suc fuel) e =
    let e' = step e false in elim (is_settled e.state e') [ true ↦ e' | false ↦ settle_for fuel e' ]

unfoldable pub settle : Eeprom → Eeprom
settle e = settle_for 8192 e

unfoldable pub same_pins : Eeprom → Bool → Bool → Bool → Bool
same_pins e sel clk din = bool_eq sel e.sel && bool_eq clk e.clk && bool_eq din e.din

unfoldable pub set_pins : Eeprom → Bool → Bool → Bool → Eeprom
set_pins e sel clk din =
    if same_pins e sel clk din
    then e
    else settle (step (record e { sel = sel; clk = clk; din = din }) (clk && not e.clk))
