-- ===== src/I2c/Edid.antt =====
-- The monitor's EDID: two blocks, each closed by a checksum byte.
use ue2_c64u_emulator.Base.{
  ℕ, zero, suc, ◌+◌, ◌-◌, ◌%◌, ◌≤◌, ◌≡◌, refl, arith, u8, List, [], ◌∷◌, ◌++◌, length,
  length-append,
}

-- The wrapping sum of bytes.
unfoldable pub sum : List ℕ → ℕ
sum [] = 0
sum (x ∷ xs) = u8 (x + sum xs)

-- The first `n` bytes, with zeros behind what is given.
unfoldable pub padded : ℕ → List ℕ → List ℕ
padded zero xs = []
padded (suc n) [] = 0 ∷ padded n []
padded (suc n) (x ∷ xs) = x ∷ padded n xs

-- `wrapping_neg`
abbrev pub neg8 : ℕ → ℕ
neg8 x = (256 - x) % 256

unfoldable pub block : List ℕ → List ℕ
block body = padded 127 body ++ (neg8 (sum (padded 127 body)) ∷ [])

unfoldable pub edid : List ℕ → List ℕ → List ℕ
edid base cea = block base ++ block cea

abbrev pub base_block : List ℕ
base_block =
    0x00 ∷ 0xFF ∷ 0xFF ∷ 0xFF ∷ 0xFF ∷ 0xFF ∷ 0xFF ∷ 0x00 ∷ 0x54 ∷ 0xAD ∷ 0x01 ∷ 0x00 ∷ 0x00 ∷ 0x00
    ∷ 0x00 ∷ 0x00 ∷ 0x00 ∷ 0x2E ∷ 0x01 ∷ 0x03 ∷ 0x80 ∷ 0x35 ∷ 0x1E ∷ 0x78 ∷ 0x0A ∷ 0xEE ∷ 0x91
    ∷ 0xA3 ∷ 0x54 ∷ 0x4C ∷ 0x99 ∷ 0x26 ∷ 0x0F ∷ 0x50 ∷ 0x54 ∷ 0x21 ∷ 0x08 ∷ 0x00 ∷ 0xD1 ∷ 0xC0
    ∷ 0x81 ∷ 0xC0 ∷ 0x01 ∷ 0x01 ∷ 0x01 ∷ 0x01 ∷ 0x01 ∷ 0x01 ∷ 0x01 ∷ 0x01 ∷ 0x01 ∷ 0x01 ∷ 0x01
    ∷ 0x01 ∷ 0x02 ∷ 0x3A ∷ 0x80 ∷ 0x18 ∷ 0x71 ∷ 0x38 ∷ 0x2D ∷ 0x40 ∷ 0x58 ∷ 0x2C ∷ 0x45 ∷ 0x00
    ∷ 0x13 ∷ 0x2B ∷ 0x21 ∷ 0x00 ∷ 0x00 ∷ 0x1E ∷ 0x00 ∷ 0x00 ∷ 0x00 ∷ 0xFD ∷ 0x00 ∷ 0x38 ∷ 0x4C
    ∷ 0x1E ∷ 0x53 ∷ 0x11 ∷ 0x00 ∷ 0x0A ∷ 0x20 ∷ 0x20 ∷ 0x20 ∷ 0x20 ∷ 0x20 ∷ 0x20 ∷ 0x00 ∷ 0x00
    ∷ 0x00 ∷ 0xFC ∷ 0x00 ∷ 0x55 ∷ 0x45 ∷ 0x32 ∷ 0x45 ∷ 0x4D ∷ 0x55 ∷ 0x20 ∷ 0x48 ∷ 0x44 ∷ 0x4D
    ∷ 0x49 ∷ 0x0A ∷ 0x20 ∷ 0x00 ∷ 0x00 ∷ 0x00 ∷ 0x10 ∷ 0x00 ∷ 0x00 ∷ 0x00 ∷ 0x00 ∷ 0x00 ∷ 0x00
    ∷ 0x00 ∷ 0x00 ∷ 0x00 ∷ 0x00 ∷ 0x00 ∷ 0x00 ∷ 0x00 ∷ 0x00 ∷ 0x01 ∷ []

abbrev pub cea_block : List ℕ
cea_block =
    0x02 ∷ 0x03 ∷ 0x1E ∷ 0x41 ∷ 0x49 ∷ 0x90 ∷ 0x04 ∷ 0x03 ∷ 0x02 ∷ 0x01 ∷ 0x1F ∷ 0x13 ∷ 0x12 ∷ 0x11
    ∷ 0x23 ∷ 0x09 ∷ 0x07 ∷ 0x07 ∷ 0x83 ∷ 0x01 ∷ 0x00 ∷ 0x00 ∷ 0x67 ∷ 0x03 ∷ 0x0C ∷ 0x00 ∷ 0x10
    ∷ 0x00 ∷ 0x00 ∷ 0x2D ∷ 0x01 ∷ 0x1D ∷ 0x00 ∷ 0x72 ∷ 0x51 ∷ 0xD0 ∷ 0x1E ∷ 0x20 ∷ 0x6E ∷ 0x28
    ∷ 0x55 ∷ 0x00 ∷ 0x13 ∷ 0x2B ∷ 0x21 ∷ 0x00 ∷ 0x00 ∷ 0x1E ∷ []

unfoldable pub edid_bytes : List ℕ
edid_bytes = edid base_block cea_block

sum-lt : (xs : List ℕ) → sum xs ≤ 255
unfolding sum
sum-lt [] = omega arith
sum-lt (x ∷ xs) = omega arith

sum-append : (xs : List ℕ) (y : ℕ) → sum (xs ++ (y ∷ [])) ≡ u8 (sum xs + y)
unfolding sum
sum-append [] y = omega arith
sum-append (x ∷ xs) y = omega (arith, sum-append xs y)

length-padded : (n : ℕ) (xs : List ℕ) → length (padded n xs) ≡ n
unfolding padded
length-padded zero xs = refl
length-padded (suc n) [] = omega (arith, length-padded n [])
length-padded (suc n) (x ∷ xs) = omega (arith, length-padded n xs)

-- Every block has 128 bytes whose sum is 0 modulo 256, whatever its contents.
pub sum-block : (body : List ℕ) → (length (block body) ≡ 128) × (sum (block body) ≡ 0)
unfolding block
sum-block body = (
  omega (
    arith,
    length-append (padded 127 body) (neg8 (sum (padded 127 body)) ∷ []),
    length-padded 127 body,
  ),
  omega (
    arith,
    sum-append (padded 127 body) (neg8 (sum (padded 127 body))),
    sum-lt (padded 127 body),
  ),
)
