-- ===== src/Eeprom/Tests.antt =====
-- The EEPROM's theorems at concrete states.
use ue2_c64u_emulator.Base.{◌≡◌, refl, arith, true, false}
use ue2_c64u_emulator.Eeprom.{Eeprom, execute, new, step, is_busy, settle, set_pins}
use ue2_c64u_emulator.Eeprom.Settle.{IsValid, settle-AtRest}
use ue2_c64u_emulator.Eeprom.Writes.{set_pins_disabled}

-- WRALL of 0x1234, writing enabled, the chip deselected.
abbrev write_all : Eeprom
write_all = record {
  mem = λ a. 0xff;
  dirty = false;
  state = execute;
  count = 15;
  instr = 0x100;
  data_word = 0x1234;
  write_enable = true;
  address = 0;
  data_out = false;
  sel = false;
  clk = false;
  din = false;
  load = false;
}

write_all-IsValid : IsValid write_all
write_all-IsValid = record {
  address_fits = omega arith;
  instr_fits = omega arith;
  data_fits = omega arith;
  count_fits = omega arith;
  bytes = λ a. omega arith;
}

settle-AtRest_example :
    (is_busy (settle write_all).state ≡ false)
    × ((settle write_all).load ≡ false)
    × (step (settle write_all) false ≡ settle write_all)
settle-AtRest_example = settle-AtRest write_all write_all-IsValid

set_pins_disabled_example :
    ((set_pins new true false false).mem ≡ new.mem)
    × ((set_pins new true false false).dirty ≡ new.dirty)
set_pins_disabled_example = set_pins_disabled new true false false disabled
  where
    disabled : new.write_enable ≡ false
    disabled = unfold new in refl
