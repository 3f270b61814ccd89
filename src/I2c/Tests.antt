-- ===== src/I2c/Tests.antt =====
-- The EDID read after transfers that left a pointer and an address behind.
use ue2_c64u_emulator.Base.{◌≡◌, refl, true, false, some, [], ◌∷◌}
use ue2_c64u_emulator.I2c.Edid.{edid_bytes, edid, block, padded}
use ue2_c64u_emulator.I2c.Master.{edid_write, HwI2c}
use ue2_c64u_emulator.I2c.ReadBlock.{edid_from, read_block, read_block_lem}

abbrev used : HwI2c
used = record {
  channel = 0;
  scan_enable = true;
  started = false;
  addressing = true;
  target = edid_write false;
  data_out = 0x12;
  ddc = record { pointer = 9; segment = 1 };
}

read_block_lem_example :
    (t : HwI2c) × (read_block used 0 0x36 3 ≡ some (0x02 ∷ 0x3a ∷ 0x80 ∷ [], t))
    × (t.channel ≡ 0)
    × (t.started ≡ false)
    × (t.ddc.segment ≡ 0)
unfolding edid_from edid_bytes edid block padded
read_block_lem_example = read_block_lem used 0 0x36 3 refl refl
