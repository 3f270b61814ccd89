-- ===== src/SdCard/Crc.antt =====
-- The two checksums of the card: seven bits over commands and registers, sixteen over data.
use ue2_c64u_emulator.Base.{
  ℕ, zero, suc, ◌*◌, ◌/◌, ◌^◌, ◌<◌, bit_and, bit_or, bit_xor, if◌then◌else◌, has, u8, u16, List, [],
  ◌∷◌, ◌++◌,
}

-- The bits of a byte that are left, the highest first.
unfoldable pub crc7_bits : ℕ → ℕ → ℕ → ℕ
crc7_bits zero crc byte = crc
crc7_bits (suc bit) crc byte =
    let feedback = bit_and (bit_xor (byte / 2 ^ bit) (crc / 2 ^ 6)) 1 in
    crc7_bits bit (bit_xor (bit_and (u8 (crc * 2)) 0x7f) (feedback * 0x09)) byte

unfoldable pub crc7 : ℕ → ℕ → ℕ
crc7 crc byte = crc7_bits 8 crc byte

unfoldable pub crc16_bit : ℕ → ℕ
crc16_bit crc = if has crc 0x8000 then bit_xor (u16 (crc * 2)) 0x1021 else u16 (crc * 2)

unfoldable pub crc16_bits : ℕ → ℕ → ℕ
crc16_bits zero crc = crc
crc16_bits (suc n) crc = crc16_bits n (crc16_bit crc)

unfoldable pub crc16_byte : ℕ → ℕ → ℕ
crc16_byte crc byte = crc16_bits 8 (bit_xor crc (byte * 256))

unfoldable pub crc16_from : ℕ → List ℕ → ℕ
crc16_from crc [] = crc
crc16_from crc (b ∷ bs) = crc16_from (crc16_byte crc b) bs

unfoldable pub crc16 : List ℕ → ℕ
crc16 bytes = crc16_from 0 bytes

unfoldable pub crc7_from : ℕ → List ℕ → ℕ
crc7_from crc [] = crc
crc7_from crc (b ∷ bs) = crc7_from (crc7 crc b) bs

-- A register of the card: its body, and its checksum with a 1 below it.
unfoldable pub with_crc7 : List ℕ → List ℕ
with_crc7 body = body ++ (bit_or (u8 (crc7_from 0 body * 2)) 1 ∷ [])

abbrev pub IsByte : ℕ → Type 0
IsByte n = n < 256
