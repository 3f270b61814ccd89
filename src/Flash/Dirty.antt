-- ===== src/Flash/Dirty.antt =====
-- No change of the array is forgotten by the bookkeeping of the file that backs it.
use ue2_c64u_emulator.Base.{
  ℕ, ◌/◌, ◌≤◌, ◌<◌, ◌≡◌, refl, ap, ◌∙◌, arith, ◌⊎◌, inl, inr, Bool, true, false, Option, none, some,
  Memory,
}
use ue2_c64u_emulator.Flash.Chip
use ue2_c64u_emulator.Flash.Chip.{Nor, sector_size}
use ue2_c64u_emulator.Flash.Changes.{Changed, Harmless, end_frame_lem}
use ue2_c64u_emulator.Flash.Controller.{
  Image, SpiFlash, modified, modified?, note_change, mark, end_frame,
}
use ue2_c64u_emulator.Flash.Select.{modified?-chip}

-- The flag of a sector; there is none without a file.
unfoldable pub dirty_at : SpiFlash → ℕ → Bool
dirty_at f s = elim (f.image) [ none ↦ false | some im ↦ im.dirty s ]

mark_inside :
    (dirty : ℕ → Bool) (base top a : ℕ) → base ≤ a → a < top → mark dirty base top (a / 4096) ≡ true
unfolding mark
mark_inside dirty base top a h k = ground arith

mark_keeps : (dirty : ℕ → Bool) (base top s : ℕ) → dirty s ≡ true → mark dirty base top s ≡ true
unfolding mark
mark_keeps dirty base top s h = ground arith

module _ (wall now : ℕ) where
  note_change-dirty :
      (im : Image) (base top : ℕ)
      → (note_change wall now im base top).dirty ≡ mark im.dirty base top
  unfolding note_change
  note_change-dirty im base top = by_since im.dirty_since refl
    where
      by_since :
          (o : Option ℕ)
          → im.dirty_since ≡ o
          → (note_change wall now im base top).dirty ≡ mark im.dirty base top
      by_since none e = ground arith
      by_since (some t) e = ground arith

  unmarked :
      (g : SpiFlash) (im : Image) (s : ℕ)
      → g.image ≡ some im
      → dirty_at (modified? wall now g none) s ≡ im.dirty s
  unfolding dirty_at modified?
  unmarked g im s e = ground arith

  marked :
      (g : SpiFlash) (im : Image) (base top s : ℕ)
      → g.image ≡ some im
      → dirty_at (modified? wall now g (some (base, top))) s ≡ mark im.dirty base top s
  unfolding dirty_at modified? modified
  marked g im base top s e = rw e (ap (λ (d : ℕ → Bool). d s) (note_change-dirty im base top))

  covered :
      (f : SpiFlash) (im : Image) (m : Nor) (base top a : ℕ)
      → f.image ≡ some im
      → Changed f.chip m base top
      → let g = modified? wall now (record f { chip = m }) (some (base, top)) in
        (g.chip.mem a ≡ f.chip.mem a) ⊎ (dirty_at g (a / 4096) ≡ true)
  covered f im m base top a e h = elim (h.outside a) [
    | inr same ↦ inl (
        ap (λ (c : Nor). c.mem a)
          (modified?-chip wall now (record f { chip = m }) (some (base, top)))
        ∙ same)
    | inl within ↦ inr (
        marked (record f { chip = m }) im base top (a / 4096) e
        ∙ mark_inside im.dirty base top a within.0 within.1)
  ]

  kept_mark :
      (f : SpiFlash) (im : Image) (m : Nor) (base top s : ℕ)
      → f.image ≡ some im
      → (im.dirty s ≡ false)
        ⊎ (dirty_at (modified? wall now (record f { chip = m }) (some (base, top))) s ≡ true)
  kept_mark f im m base top s e =
      ground (arith, marked (record f { chip = m }) im base top s e, mark_keeps im.dirty base top s)

  -- With a file behind the array, the end of a frame leaves each byte as it was, or its sector is marked
  -- to be written; and a sector that was marked stays so.
  pub end_frame-dirty :
      (f : SpiFlash) (im : Image) (a s : ℕ)
      → f.image ≡ some im
      → (((end_frame wall now f).chip.mem a ≡ f.chip.mem a)
          ⊎ (dirty_at (end_frame wall now f) (a / 4096) ≡ true))
        × ((im.dirty s ≡ false) ⊎ (dirty_at (end_frame wall now f) s ≡ true))
  unfolding end_frame Harmless modified?
  end_frame-dirty f im a s e = by_range (Chip.end_frame f.chip) (end_frame_lem f.chip)
    where
      quiet :
          (m : Nor)
          → Harmless f.chip (none, m)
          → (modified? wall now (record f { chip = m }) none).chip.mem a ≡ f.chip.mem a
      quiet m h = ap (λ (c : Memory). c a) h

      change :
          (m : Nor) (base top : ℕ)
          → Harmless f.chip (some (base, top), m)
          → Changed f.chip m base top
      change m base top h = h

      by_range :
          (r : Option (ℕ × ℕ) × Nor)
          → Harmless f.chip r
          → let g = modified? wall now (record f { chip = r.1 }) r.0 in
            ((g.chip.mem a ≡ f.chip.mem a) ⊎ (dirty_at g (a / 4096) ≡ true))
            × ((im.dirty s ≡ false) ⊎ (dirty_at g s ≡ true))
      by_range (none, m) h =
          (inl (quiet m h), ground (arith, unmarked (record f { chip = m }) im s e))
      by_range (some (base, top), m) h =
          (covered f im m base top a e (change m base top h), kept_mark f im m base top s e)
