-- ===== src/IecProc/Registers.antt =====
-- The firmware's window: the registers, the FIFOs' ends and the code RAM.
use ue2_c64u_emulator.Base.{
  ℕ, ◌*◌, ◌/◌, ◌^◌, bit_and, bit_or, Bool, false, not, ◌&&◌, ◌||◌, ◌==◌, ltb, leb, if◌then◌else◌,
  from_bool, has, u8, not32, [], ◌∷◌, ◌++◌, length, rest, get_or, store,
}
use ue2_c64u_emulator.IecProc.State.{IecProc, reset, version, code_base, up_depth, down_depth}

unfoldable pub peek : IecProc → ℕ → ℕ
peek p off =
    let head = get_or p.up 0 0 in
    let r = bit_and off 0xf in
    if r == 0x0
    then version
    else if r == 0x1
    then bit_or (from_bool (length p.down == 0))
        (from_bool (leb down_depth (length p.down) || p.flush) * 2)
    else if r == 0x2
    then bit_or (bit_or (from_bool (length p.up == 0)) (from_bool (leb up_depth (length p.up)) * 2))
        (u8 (u8 (head / 256) * 128))
    else if (r == 0x6) || (leb 0x8 r && leb r 0xb)
    then u8 head
    else if r == 0x7
    then bit_and (u8 (head / 256)) 1
    else if r == 0xc
    then from_bool p.irq_status
    else 0

-- Whether a read takes the head of the FIFO to the firmware.
unfoldable pub takes_entry : ℕ → Bool
takes_entry off =
    (bit_and off code_base == 0) && ((bit_and off 0xf == 0x6) || (bit_and off 0xc == 0x8))

unfoldable pub read : IecProc → ℕ → ℕ × IecProc
read p off = (peek p off, if takes_entry off then record p { up = rest p.up } else p)

-- A byte into a word of the code RAM.
unfoldable pub put_byte : ℕ → ℕ → ℕ → ℕ
put_byte w byte val = bit_or (bit_and w (not32 (0xff * 2 ^ byte))) (val * 2 ^ byte)

unfoldable pub write_code : IecProc → ℕ → ℕ → IecProc
write_code p off val =
    let word = bit_and off 0x7ff / 4 in
    record p { code = store p.code word (put_byte (p.code word) (bit_and off 3 * 8) val) }

unfoldable pub write_register : IecProc → ℕ → ℕ → IecProc
write_register p off val =
    let r = bit_and off 0xf in
    if r == 0x3
    then reset (record p { enabled = has val 1 })
    else if r == 0xc
    then record p { irq_status = false; irq_enable = has val 1 }
    else if r == 0xd
    then record p { flush = false }
    else if leb 0x8 r && leb r 0xb && not p.flush && ltb (length p.down) down_depth
    then record p { down = p.down ++ (bit_or (bit_and off 3 * 256) val ∷ []) }
    else p

unfoldable pub write : IecProc → ℕ → ℕ → IecProc
write p off val = if has off code_base then write_code p off val else write_register p off val
