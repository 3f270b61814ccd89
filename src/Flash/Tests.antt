-- ===== src/Flash/Tests.antt =====
-- The chip's theorems at concrete frames.
use ue2_c64u_emulator.Base.{◌≡◌, ◌==◌, refl, arith, bit_and, true, false, ◌⊎◌, none, some, [], ◌∷◌}
use ue2_c64u_emulator.Flash.Chip
use ue2_c64u_emulator.Flash.Chip.{Nor, erased}
use ue2_c64u_emulator.Flash.Dirty.{dirty_at, end_frame-dirty}
use ue2_c64u_emulator.Flash.Changes.{Harmless, end_frame_lem}
use ue2_c64u_emulator.Flash.Frames.{frame}
use ue2_c64u_emulator.Flash.Program.{program_frame}
use ue2_c64u_emulator.Flash.Controller.{SpiFlash, cs_forced_low, end_frame}
use ue2_c64u_emulator.Flash.Select.{command, command-frame}

-- An erased chip with the write enable set.
abbrev writable : Nor
writable = record erased { wel = true }

end_frame_lem_example : Harmless writable (Chip.end_frame writable)
end_frame_lem_example = end_frame_lem writable

-- Two bytes from the last cell of a page on: the second goes to the page's first cell.
program_frame_example :
    (frame (0x02 ∷ 0x12 ∷ 0x34 ∷ 0xff ∷ 0x5a ∷ 0x0f ∷ []) writable).1.mem 0x123400
    ≡ bit_and (writable.mem 0x123400) 0x0f
program_frame_example =
    program_frame writable 0x12 0x34 0xff 0x5a (0x0f ∷ []) 0x123400 (omega arith) (omega arith)
      (omega arith) (omega arith) refl

-- The controller after its reset.
abbrev idle_flash : SpiFlash
idle_flash = record { chip = writable; force_ss = false; level_ss = true; image = none }

command-frame_example :
    ((command 0 0 (0x9f ∷ 0 ∷ 0 ∷ 0 ∷ []) idle_flash).0
      ≡ (frame (0x9f ∷ 0 ∷ 0 ∷ 0 ∷ []) writable).0)
    × ((command 0 0 (0x9f ∷ 0 ∷ 0 ∷ 0 ∷ []) idle_flash).1.chip
        ≡ (frame (0x9f ∷ 0 ∷ 0 ∷ 0 ∷ []) writable).1)
command-frame_example =
    command-frame 0 0 (0x9f ∷ 0 ∷ 0 ∷ 0 ∷ []) idle_flash (unfold cs_forced_low in refl)

-- The file's bookkeeping marks sector 3, and the chip's frame ends with a sector erase.
abbrev erasing : SpiFlash
erasing = record {
  chip = record writable { op = some 0x20; count = 3; addr = 0x123456 };
  force_ss = true;
  level_ss = true;
  image = some (record { dirty = λ s. s == 3; dirty_since = some 5; poll_at = 9 });
}

end_frame-dirty_example :
    (((end_frame 7 8 erasing).chip.mem 0x123000 ≡ erasing.chip.mem 0x123000)
      ⊎ (dirty_at (end_frame 7 8 erasing) 0x123 ≡ true))
    × ((true ≡ false) ⊎ (dirty_at (end_frame 7 8 erasing) 3 ≡ true))
end_frame-dirty_example =
    end_frame-dirty 7 8 erasing (record { dirty = λ s. s == 3; dirty_since = some 5; poll_at = 9 })
      0x123000 3 refl
