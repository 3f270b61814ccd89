-- ===== src/Flash/Select.antt =====
-- A command of the firmware, as accesses of the controller's registers, is a frame of the chip.
use ue2_c64u_emulator.Base.{
  ℕ, ◌≡◌, refl, arith, true, false, has, Option, none, some, List, [], ◌∷◌,
}
use ue2_c64u_emulator.Flash.Chip
use ue2_c64u_emulator.Flash.Chip.{Nor, start_frame, xfer}
use ue2_c64u_emulator.Flash.Frames.{sends, frame}
use ue2_c64u_emulator.Flash.Controller.{
  Image, SpiFlash, cs_forced_low, modified, modified?, end_frame, transfer, write_ctrl,
}

module _ (wall now : ℕ) where
  -- Bytes through the data register, and the answers.
  unfoldable pub transfers : List ℕ → SpiFlash → List ℕ × SpiFlash
  transfers [] f = ([], f)
  transfers (b ∷ bs) f =
      let r = transfer wall now f b in let more = transfers bs r.1 in (r.0 ∷ more.0, more.1)

  -- The chip select low, the bytes, and the chip select high.
  unfoldable pub command : List ℕ → SpiFlash → List ℕ × SpiFlash
  command bs f =
      let r = transfers bs (write_ctrl wall now f 0x01) in (r.0, write_ctrl wall now r.1 0x03)

  transfer-low :
      (f : SpiFlash) (b : ℕ)
      → f.force_ss ≡ true
      → f.level_ss ≡ false
      → ◌≡◌ {A = ℕ × SpiFlash}
          (transfer wall now f b)
          ((xfer f.chip b).0, record f { chip = (xfer f.chip b).1 })
  unfolding transfer
  transfer-low f b h l = rw (h, l) refl

  transfers-low :
      (bs : List ℕ) (f : SpiFlash)
      → f.force_ss ≡ true
      → f.level_ss ≡ false
      → ◌≡◌ {A = List ℕ × SpiFlash}
          (transfers bs f)
          ((sends bs f.chip).0, record f { chip = (sends bs f.chip).1 })
  unfolding transfers sends
  transfers-low [] f h l = refl
  transfers-low (b ∷ bs) f h l =
      rw (transfer-low f b h l, transfers-low bs (record f { chip = (xfer f.chip b).1 }) h l) refl

  select :
      (f : SpiFlash)
      → cs_forced_low f ≡ false
      → write_ctrl wall now f 0x01
        ≡ record f { force_ss = true; level_ss = false; chip = start_frame f.chip }
  unfolding write_ctrl has cs_forced_low
  select f h = ground arith

  pub modified?-chip : (f : SpiFlash) (r : Option (ℕ × ℕ)) → (modified? wall now f r).chip ≡ f.chip
  unfolding modified modified?
  modified?-chip f none = refl
  modified?-chip f (some r) = by_image f.image refl
    where
      by_image : (o : Option Image) → f.image ≡ o → (modified? wall now f (some r)).chip ≡ f.chip
      by_image none e = ground arith
      by_image (some im) e = ground arith

  deselect :
      (f : SpiFlash)
      → f.force_ss ≡ true
      → f.level_ss ≡ false
      → (write_ctrl wall now f 0x03).chip ≡ (Chip.end_frame f.chip).1
  unfolding write_ctrl has cs_forced_low end_frame
  deselect f h l =
      rw (h, l)
        (modified?-chip
          (record f { chip = (Chip.end_frame f.chip).1; force_ss = true; level_ss = true })
          (Chip.end_frame f.chip).0)

  -- With the chip select high, the accesses of a command (chip select low, a byte at a time through the
  -- data register, chip select high) are one frame of the chip: the same answers, and the same chip
  -- afterwards.
  pub command-frame :
      (bs : List ℕ) (f : SpiFlash)
      → cs_forced_low f ≡ false
      → ((command bs f).0 ≡ (frame bs f.chip).0) × ((command bs f).1.chip ≡ (frame bs f.chip).1)
  unfolding command frame
  command-frame bs f h =
      rw (select f h, transfers-low bs low refl refl)
        (refl, deselect (record low { chip = (sends bs low.chip).1 }) refl refl)
    where
      low : SpiFlash
      low = record f { force_ss = true; level_ss = false; chip = start_frame f.chip }
