-- ===== src/Flash/Controller.antt =====
-- The SPI controller: the chip select, and its registers.
use ue2_c64u_emulator.Base.{
  ℕ, ◌+◌, ◌-◌, ◌*◌, ◌/◌, bit_and, bit_or, Bool, true, false, not, ◌&&◌, ◌==◌, ltb, leb,
  if◌then◌else◌, from_bool, has, Option, none, some,
}
use ue2_c64u_emulator.Flash.Chip
use ue2_c64u_emulator.Flash.Chip.{Nor, xfer, sector_size}

abbrev pub reg_mask : ℕ
reg_mask = 0x0c

abbrev pub flush_poll_clocks : ℕ
flush_poll_clocks = 1000000

-- The host file's bookkeeping: a flag for each sector, the wall time of the oldest change that is not
-- written, and the clock of the next look at it. The file itself is left out.
pub record Image : Type 0 where
  pub dirty : ℕ → Bool
  pub dirty_since : Option ℕ
  pub poll_at : ℕ

pub record SpiFlash : Type 0 where
  pub chip : Nor
  pub force_ss : Bool
  pub level_ss : Bool
  pub image : Option Image

unfoldable pub cs_forced_low : SpiFlash → Bool
cs_forced_low f = f.force_ss && not f.level_ss

-- The sectors from the first that the range touches to the last.
unfoldable pub mark : (ℕ → Bool) → ℕ → ℕ → ℕ → Bool
mark dirty base top s =
    if leb (base / sector_size) s && ltb s ((top + (sector_size - 1)) / sector_size)
    then true
    else dirty s

-- `wall` is what the host's clock says.
module _ (wall now : ℕ) where
  unfoldable pub note_change : Image → ℕ → ℕ → Image
  note_change im base top = elim (im.dirty_since) [
    | some since ↦ record im { dirty = mark im.dirty base top }
    | none ↦ record im {
      dirty = mark im.dirty base top;
      dirty_since = some wall;
      poll_at = now + flush_poll_clocks;
    }
  ]

  unfoldable pub modified : SpiFlash → ℕ → ℕ → SpiFlash
  modified f base top = elim (f.image) [
    | none ↦ f
    | some im ↦ record f { image = some (note_change im base top) }
  ]

  unfoldable pub modified? : SpiFlash → Option (ℕ × ℕ) → SpiFlash
  modified? f none = f
  modified? f (some range) = modified f range.0 range.1

  unfoldable pub end_frame : SpiFlash → SpiFlash
  end_frame f = let r = Chip.end_frame f.chip in modified? (record f { chip = r.1 }) r.0

  -- One access of DATA. Without a forced chip select the byte is a frame of its own.
  unfoldable pub transfer : SpiFlash → ℕ → ℕ × SpiFlash
  transfer f mosi =
      let inside = xfer f.chip mosi in
      let alone = xfer (Chip.start_frame f.chip) mosi in
      if f.force_ss
      then (if f.level_ss then (0xff, f) else (inside.0, record f { chip = inside.1 }))
      else (alone.0, end_frame (record f { chip = alone.1 }))

  -- A falling chip select opens a frame, a rising one ends it.
  unfoldable pub write_ctrl : SpiFlash → ℕ → SpiFlash
  write_ctrl f val =
      let g = record f { force_ss = has val 0x01; level_ss = has val 0x02 } in
      if not (cs_forced_low f) && cs_forced_low g
      then record g { chip = Chip.start_frame g.chip }
      else if cs_forced_low f && not (cs_forced_low g)
      then end_frame g
      else g

unfoldable pub peek8 : SpiFlash → ℕ → ℕ
peek8 f off =
    let r = bit_and off reg_mask in
    if r == 0x00
    then 0xff
    else if r == 0x04
    then 0x01
    else if r == 0x08
    then bit_or (bit_or 0x04 (from_bool f.level_ss * 2)) (from_bool f.force_ss)
    else 0x00

module _ (wall now : ℕ) where
  unfoldable pub read8 : SpiFlash → ℕ → ℕ × SpiFlash
  read8 f off = if bit_and off reg_mask == 0x00 then transfer wall now f 0xff else (peek8 f off, f)

  unfoldable pub write8 : SpiFlash → ℕ → ℕ → SpiFlash
  write8 f off val =
      let r = bit_and off reg_mask in
      if r == 0x00
      then (transfer wall now f val).1
      else if r == 0x08
      then write_ctrl wall now f val
      else f

-- The clock of the next look at the file, while it has changes to write.
unfoldable pub next_event : SpiFlash → Option ℕ
next_event f = elim (f.image) [
  | none ↦ none
  | some im ↦ elim (im.dirty_since) [ none ↦ none | some since ↦ some im.poll_at ]
]

unfoldable pub reset : SpiFlash → SpiFlash
reset f = record f { force_ss = false; level_ss = true; chip = Chip.start_frame f.chip }
