-- ===== src/Wd177x/Tests.antt =====
-- The controller's theorems at concrete states.
use ue2_c64u_emulator.Base.{ℕ, ◌≡◌, refl, arith, false, Memory, has, [], ◌∷◌, if◌then◌else◌, ltb}
use ue2_c64u_emulator.Wd177x.State.{Wd177x, blank, ram, st_busy}
use ue2_c64u_emulator.Wd177x.Transfer.{settle}
use ue2_c64u_emulator.Wd177x.Dma.{IsQuiet, cpu_reads, read_transfer}
use ue2_c64u_emulator.Wd177x.Invariant.{IsValid, firmware_write, access, access-IsValid}

-- Memory that holds its own addresses, modulo 256.
abbrev counting : Memory
counting a = a

abbrev peek : Memory → ℕ → ℕ
peek m a = if ltb a 65536 then m a else 0

ram-IsQuiet : IsQuiet (ram 65536) peek
ram-IsQuiet = record { reads = λ m a. refl }

-- The firmware has set up a read of two bytes from address 0x40.
abbrev sector_read : Wd177x
sector_read = record blank { status = 1; dma_mode = 1; addr = 0x40; len = 2 }

read_transfer_example :
    let (w0, m0) = settle (ram 65536) sector_read counting in
    let (vs, w', m') = cpu_reads (ram 65536) 2 w0 m0 in
    (vs ≡ 0x40 ∷ 0x41 ∷ []) × (w'.dma_mode ≡ 0) × (has w'.status st_busy ≡ false) × (m' ≡ counting)
read_transfer_example =
    read_transfer (ram 65536) peek ram-IsQuiet counting sector_read 0x40 1 refl refl refl refl refl
      refl

blank-IsValid : IsValid sector_read
blank-IsValid = omega arith

access-IsValid_example :
    IsValid (access (ram 65536) (sector_read, counting) (firmware_write 0xd 0xff)).0
access-IsValid_example =
    access-IsValid (ram 65536) sector_read counting (firmware_write 0xd 0xff) (omega arith)
      blank-IsValid

-- From track 0 to track 2 with a step time of 12.
abbrev seeking : Wd177x
seeking = record blank { goto_track = 2; step_time = 12; step_timer = 1 }
