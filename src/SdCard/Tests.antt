-- ===== src/SdCard/Tests.antt =====
-- A card over a small image, runs of it, and the theorems at concrete cards.
use mathlib.Core.Bool.{xor}
use ue2_c64u_emulator.Base.{
  ℕ, zero, suc, ◌<◌, All, ◌≡◌, inl, inr, refl, arith, true, false, ◌==◌, if◌then◌else◌, Option,
  some, List, [], ◌∷◌, ◌++◌, length, replicate, has,
}
use ue2_c64u_emulator.SdCard.Crc.{
  IsByte, crc7, crc7_bits, crc16, crc16_from, crc16_byte, crc16_bits, crc16_bit, crc7_from,
  with_crc7,
}
use ue2_c64u_emulator.SdCard.Card.{command, Card, ImageFile, xfer, r1_param}
use ue2_c64u_emulator.SdCard.Host.{SdCard, with_card}
use ue2_c64u_emulator.SdCard.Transfers.{sends}
use ue2_c64u_emulator.SdCard.Read.{command_frame}
use ue2_c64u_emulator.SdCard.Stream.{stream_lem}
use ue2_c64u_emulator.SdCard.Serial.{
  wire_block, wire_blocks, serial_crc, serial_from, crc_of_bits, shift_in,
}
use ue2_c64u_emulator.SdCard.Write.{sent_block}
use ue2_c64u_emulator.SdCard.Blocks.{read_block-write_block}
use ue2_c64u_emulator.SdCard.Errors.{refused, Refuses}
use ue2_c64u_emulator.SdCard.Invariant.{xfer-IsWellFormed, IsWellFormed}

-- The sectors that have been written; the others hold four bytes, so that runs stay short.
abbrev Sectors : Type 0
Sectors = ℕ → Option (List ℕ)

abbrev image : ImageFile Sectors
image = record { read = λ f n. f n; write = λ f n b. (true, λ m. if m == n then some b else f m) }

abbrev sample : List ℕ
sample = 1 ∷ 2 ∷ 3 ∷ 0xfe ∷ []

abbrev card : Card Sectors
card = record {
  file = λ n. some sample;
  sectors = 4;
  write_protect = false;
  idle = false;
  app = false;
  phase = command;
  frame = λ i. 0;
  lba = 0;
  streaming = false;
  block = λ i. 0;
  out = [];
}

-- CMD0 resets the card, with the CRC7 that the specification gives for it.
cmd0_crc : with_crc7 (0x40 ∷ 0 ∷ 0 ∷ 0 ∷ 0 ∷ []) ≡ 0x40 ∷ 0 ∷ 0 ∷ 0 ∷ 0 ∷ 0x95 ∷ []
unfolding with_crc7 crc7_from crc7 crc7_bits
cmd0_crc = refl

-- The CRC16 of 512 bytes 0xFF.
crc16_test : crc16 (replicate 512 0xff) ≡ 0x7fa1
unfolding crc16 crc16_from crc16_byte crc16_bits crc16_bit has
crc16_test = refl

-- The same of the serial register, and a short block on the wire.
serial_test : serial_crc (replicate 512 0xff) ≡ 0x7fa1
unfolding serial_crc serial_from crc_of_bits shift_in xor
serial_test = refl

wire_test : wire_block (1 ∷ 2 ∷ []) ≡ 0xfe ∷ 1 ∷ 2 ∷ 0x13 ∷ 0x73 ∷ []
unfolding wire_block serial_crc serial_from crc_of_bits shift_in xor
wire_test = refl

abbrev full : List ℕ
full = replicate 512 7

stream_lem_example :
    (sends image
      (replicate (length (0x00 ∷ wire_blocks (sample ∷ sample ∷ []))) 0xff)
      (sends image (command_frame 18 2 1) card).1).0
    ≡ 0x00 ∷ wire_blocks (sample ∷ sample ∷ [])
stream_lem_example =
    stream_lem image card 2 1 (sample ∷ sample ∷ []) refl refl refl (omega arith) (omega arith)
      (refl, (refl, tt)) (omega arith)

replicate-IsByte : (n v : ℕ) → v < 256 → All IsByte (replicate n v)
replicate-IsByte zero v h = tt
replicate-IsByte (suc n) v h = (h, replicate-IsByte n v h)

read_block-write_block_example :
    (sends image
      (replicate (length (0x00 ∷ wire_block full)) 0xff)
      (sends image
        (command_frame 17 3 1)
        (sends image (command_frame 24 3 1 ++ (0xff ∷ sent_block false full 0 0)) card).1).1).0
    ≡ 0x00 ∷ wire_block full
read_block-write_block_example =
    read_block-write_block image (λ f n b h. ground arith) card 3 1 full 0 0 refl refl refl
      (omega arith) refl (replicate-IsByte 512 7 (omega arith)) refl

refused_example : Refuses image card (sends image (command_frame 24 4 1) card).1 (r1_param ∷ [])
refused_example = refused image card 24 4 1 (inr (inr (inl refl))) refl refl refl (omega arith)

-- An image that is read only, and always the same.
abbrev constant_image : ImageFile Sectors
constant_image = record { read = λ f n. some sample; write = λ f n b. (false, f) }

xfer-IsWellFormed_example :
    IsByte (xfer constant_image card 0x51).0
    × IsWellFormed constant_image (xfer constant_image card 0x51).1
xfer-IsWellFormed_example =
    xfer-IsWellFormed constant_image card 0x51
      (λ f n. (omega arith, (omega arith, (omega arith, (omega arith, tt))))) (omega arith)
      record { holds = (tt, tt, (λ i. omega arith), λ i. omega arith) }

abbrev spi : SdCard Sectors
spi = with_card (some card)
