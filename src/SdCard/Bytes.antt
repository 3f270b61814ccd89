-- ===== src/SdCard/Bytes.antt =====
-- What the card sends are bytes: its checksums, its registers and its blocks.
use ue2_c64u_emulator.Base.{
  ℕ, zero, suc, ◌*◌, ◌<◌, arith, if_elim, has, u16, List, [], ◌∷◌, All, All-append,
}
use ue2_c64u_emulator.Base.Bits.{bit_xor-lt, bit_or-lt, bit_and-le}
use ue2_c64u_emulator.SdCard.Crc.{
  IsByte, crc16_bit, crc16_bits, crc16_byte, crc16_from, crc16, with_crc7,
}
use ue2_c64u_emulator.SdCard.Card.{data_block, csd}

crc16_bit_lt : (crc : ℕ) → crc16_bit crc < 65536
unfolding crc16_bit
crc16_bit_lt crc =
    if_elim (λ (n : ℕ). n < 65536) (has crc 0x8000) _ _
      (bit_xor-lt 16 (u16 (crc * 2)) 0x1021 (omega arith) (omega arith)) (omega arith)

crc16_bits_lt : (n crc : ℕ) → crc < 65536 → crc16_bits n crc < 65536
unfolding crc16_bits
crc16_bits_lt zero crc h = h
crc16_bits_lt (suc n) crc h = crc16_bits_lt n (crc16_bit crc) (crc16_bit_lt crc)

crc16_from_lt :
    (bytes : List ℕ) (crc : ℕ) → crc < 65536 → All IsByte bytes → crc16_from crc bytes < 65536
unfolding crc16_from crc16_byte
crc16_from_lt [] crc h v = h
crc16_from_lt (b ∷ bs) crc h v =
    crc16_from_lt bs (crc16_byte crc b)
      (crc16_bits_lt 8 _ (bit_xor-lt 16 crc (b * 256) h (omega (arith, v.0)))) v.1

pub data_block-IsByte : (bytes : List ℕ) → All IsByte bytes → All IsByte (data_block bytes)
unfolding data_block crc16
data_block-IsByte bytes v = (
  omega arith,
  All-append IsByte bytes _ v
      (omega (arith, crc16_from_lt bytes 0 (omega arith) v), (omega arith, tt)),
)

pub with_crc7-IsByte : (body : List ℕ) → All IsByte body → All IsByte (with_crc7 body)
unfolding with_crc7
with_crc7-IsByte body v =
    All-append IsByte body _ v (bit_or-lt 8 _ 1 (omega arith) (omega arith), tt)

pub csd-IsByte : (sectors : ℕ) → All IsByte (csd sectors)
unfolding csd
csd-IsByte sectors = with_crc7-IsByte _ (grind (arith, bit_and-le))
