-- ===== src/I2c/Master.antt =====
-- The master's registers, and the EEPROM and the segment pointer behind them.
use ue2_c64u_emulator.Base.{
  ℕ, ◌+◌, ◌*◌, bit_and, Bool, true, false, ◌&&◌, ◌||◌, ◌==◌, if◌then◌else◌, from_bool, has, u8,
  get_or,
}
use ue2_c64u_emulator.I2c.Edid.{edid_bytes}

-- The slave that the last address byte selected.
pub data Target : Type 0 where
  unmodelled edid_read segment_write : Target
  edid_write : (pointer_loaded : Bool) → Target

pub record Ddc : Type 0 where
  pub pointer : ℕ
  pub segment : ℕ

unfoldable pub ddc_read : Ddc → ℕ × Ddc
ddc_read d = (
  get_or edid_bytes (d.segment * 256 + d.pointer) 0xff,
  record d { pointer = u8 (d.pointer + 1) },
)

pub record HwI2c : Type 0 where
  pub channel : ℕ
  pub scan_enable : Bool
  pub started : Bool
  pub addressing : Bool
  pub target : Target
  pub data_out : ℕ
  pub ddc : Ddc

unfoldable pub new : HwI2c
new = record {
  channel = 0;
  scan_enable = false;
  started = false;
  addressing = false;
  target = unmodelled;
  data_out = 0xff;
  ddc = record { pointer = 0; segment = 0 };
}

unfoldable pub get : HwI2c → ℕ → ℕ
get h off =
    if (off == 0x00) || (off == 0x04) || (off == 0x05)
    then h.data_out
    else if off == 0x01
    then from_bool h.started
    else if off == 0x06
    then h.channel
    else 0

-- The slave for an address byte on a bus.
unfoldable pub select : ℕ → ℕ → Target
select channel byte =
    if (channel == 0) && (byte == 0xa0)
    then edid_write false
    else if (channel == 0) && (byte == 0xa1)
    then edid_read
    else if (channel == 0) && (byte == 0x60)
    then segment_write
    else unmodelled

-- A byte after the address, to the slave.
unfoldable pub accept : HwI2c → ℕ → HwI2c
accept h byte = elim (h.target) [
  | edid_write loaded ↦
      if loaded
      then h
      else record h { ddc = record (h.ddc) { pointer = byte }; target = edid_write true }
  | segment_write ↦ record h { ddc = record (h.ddc) { segment = byte } }
  | edid_read ↦ h
  | unmodelled ↦ h
]

unfoldable pub transmit : HwI2c → ℕ → HwI2c
transmit h byte =
    let s = if h.started then h else record h { started = true; addressing = true } in
    let t =
      if s.addressing
      then record s { addressing = false; target = select s.channel byte }
      else accept s byte in
    record t { data_out = 0xff }

unfoldable pub receive : HwI2c → HwI2c
receive h = elim (h.target) [
  | edid_read ↦ record h { data_out = (ddc_read h.ddc).0; ddc = (ddc_read h.ddc).1 }
  | _ ↦ record h { data_out = 0xff }
]

unfoldable pub write8 : HwI2c → ℕ → ℕ → HwI2c
write8 h off val =
    if off == 0x00
    then transmit h val
    else if off == 0x02
    then record h { addressing = true }
    else if off == 0x03
    then record h { started = false; target = unmodelled; ddc = record (h.ddc) { segment = 0 } }
    else if (off == 0x04) || (off == 0x05)
    then receive h
    else if off == 0x06
    then record h { channel = bit_and val 0x03 }
    else if (off == 0x07) && has val 1
    then record new { ddc = h.ddc }
    else if off == 0x08
    then record h { scan_enable = has val 1 }
    else h

unfoldable pub reset : HwI2c → HwI2c
reset h = new
