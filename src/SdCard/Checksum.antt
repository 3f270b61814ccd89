-- ===== src/SdCard/Checksum.antt =====
-- A receiver that runs the checksum over a block and its two checksum bytes ends at 0.
use ue2_c64u_emulator.Base.{
  ℕ, zero, suc, ◌+◌, ◌*◌, ◌/◌, ◌%◌, ◌<◌, ◌≤◌, ◌≡◌, refl, ap, ◌∙◌, arith, false, has, bit_xor, u8,
  List, [], ◌∷◌, ◌++◌,
}
use ue2_c64u_emulator.Base.Bits.{bit_xor-halves, bit_at}
use ue2_c64u_emulator.Base.Masks.{has_pow}
use ue2_c64u_emulator.SdCard.Crc.{crc16_bit, crc16_bits, crc16_byte, crc16_from, crc16}
use ue2_c64u_emulator.SdCard.Card.{high_byte}

xor_bounded : (n a : ℕ) → a ≤ n → bit_xor a a ≡ 0
xor_bounded zero a h = let e : a ≡ 0 = omega arith in rw e refl
xor_bounded (suc n) zero h = refl
xor_bounded (suc n) (suc a) h =
    omega (arith, bit_xor-halves (suc a) (suc a), xor_bounded n (suc a / 2) (omega arith))

xor_self : (a : ℕ) → bit_xor a a ≡ 0
xor_self a = xor_bounded a a (omega arith)

xor_up : (a b r : ℕ) → bit_xor (a / 2) b ≡ r → bit_xor a (b * 2) ≡ r * 2 + a % 2
xor_up a b r h =
    let e : b * 2 / 2 ≡ b = omega arith in
    omega (arith, bit_xor-halves a (b * 2), h, ap (λ (t : ℕ). bit_xor (a / 2) t) e)

-- The upper byte taken out.
xor_top : (c : ℕ) → bit_xor c (c / 256 * 256) ≡ c % 256
xor_top c =
    let c1 = c / 2 in
    let c2 = c1 / 2 in
    let c3 = c2 / 2 in
    let c4 = c3 / 2 in
    let c5 = c4 / 2 in
    let c6 = c5 / 2 in
    let c7 = c6 / 2 in
    let b = c7 / 2 in
    let up = xor_up c _ _ (
      xor_up c1 _ _ (
        xor_up c2 _ _ (
          xor_up c3 _ _
            (xor_up c4 _ _ (xor_up c5 _ _ (xor_up c6 _ _ (xor_up c7 b 0 (xor_self b)))))))) in
    let e : b * 2 * 2 * 2 * 2 * 2 * 2 * 2 * 2 ≡ c / 256 * 256 = omega arith in
    omega (arith, up, ap (λ (t : ℕ). bit_xor c t) e)

top_clear : (x : ℕ) → x < 32768 → has x 0x8000 ≡ false
unfolding bit_at
top_clear x h = has_pow 15 x ∙ ground arith

crc16_bit_low : (x : ℕ) → x < 32768 → crc16_bit x ≡ x * 2
unfolding crc16_bit
crc16_bit_low x h = rw (top_clear x h) (omega arith)

-- A low byte only moves up.
crc16_bits_low : (x : ℕ) → x < 256 → crc16_bits 8 x ≡ x * 256
unfolding crc16_bits
crc16_bits_low x h =
    rw
      (
        crc16_bit_low x (omega arith),
        crc16_bit_low (x * 2) (omega arith),
        crc16_bit_low (x * 2 * 2) (omega arith),
        crc16_bit_low (x * 2 * 2 * 2) (omega arith),
        crc16_bit_low (x * 2 * 2 * 2 * 2) (omega arith),
        crc16_bit_low (x * 2 * 2 * 2 * 2 * 2) (omega arith),
        crc16_bit_low (x * 2 * 2 * 2 * 2 * 2 * 2) (omega arith),
        crc16_bit_low (x * 2 * 2 * 2 * 2 * 2 * 2 * 2) (omega arith),
      )
      (omega arith)

crc16_byte_high : (c : ℕ) → crc16_byte c (high_byte c) ≡ u8 c * 256
unfolding crc16_byte
crc16_byte_high c = ap (crc16_bits 8) (xor_top c) ∙ crc16_bits_low (c % 256) (omega arith)

crc16_byte_low : (x : ℕ) → crc16_byte (x * 256) x ≡ 0
unfolding crc16_byte
crc16_byte_low x = ap (crc16_bits 8) (xor_self (x * 256)) ∙ crc16_bits_low 0 (omega arith)

crc16_from-append :
    (xs ys : List ℕ) (crc : ℕ) → crc16_from crc (xs ++ ys) ≡ crc16_from (crc16_from crc xs) ys
unfolding crc16_from
crc16_from-append [] ys crc = refl
crc16_from-append (x ∷ xs) ys crc = crc16_from-append xs ys (crc16_byte crc x)

-- The checksum of a block followed by its own two bytes, high byte first, is 0, so that a receiver
-- finds the block intact.
pub crc16-checked :
    (bytes : List ℕ) → crc16 (bytes ++ (high_byte (crc16 bytes) ∷ u8 (crc16 bytes) ∷ [])) ≡ 0
unfolding crc16 crc16_from
crc16-checked bytes =
    let c = crc16_from 0 bytes in
    crc16_from-append bytes (high_byte c ∷ u8 c ∷ []) 0
    ∙ ap (λ (t : ℕ). crc16_byte t (u8 c)) (crc16_byte_high c)
    ∙ crc16_byte_low (u8 c)
