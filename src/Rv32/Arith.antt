-- ===== src/Rv32/Arith.antt =====
-- The M extension: the halves of a product, and what division means.
use ue2_c64u_emulator.Base.{
  ℕ, zero, suc, ◌+◌, ◌-◌, ◌*◌, ◌%◌, ◌<◌, ◌≤◌, ◌≡◌, ◌≢◌, ◌⊎◌, refl, ap, arith, ltb, inl, inr,
  Bool-cases,
}
use ue2_c64u_emulator.Base.Int.{ℤ, pos, negsuc, neg, signed32, to_u64, div_ℤ, ◌*ℤ◌}
use ue2_c64u_emulator.Rv32.Alu.{mul_div}

-- MULHU and MUL are the two halves of the unsigned product.
pub mulhu_mul :
    (a b : ℕ) → a < 4294967296 → b < 4294967296 → mul_div 3 a b * 4294967296 + mul_div 0 a b ≡ a * b
unfolding mul_div
mulhu_mul a b ha hb = omega (arith, fits)
  where
    fits : a * b ≤ 4294967295 * 4294967295
    fits = grind arith

-- DIVU and REMU: quotient and remainder of the unsigned division.
pub divu_remu : (a b : ℕ) → b ≢ 0 → (mul_div 5 a b * b + mul_div 7 a b ≡ a) × (mul_div 7 a b < b)
unfolding mul_div
divu_remu a b h = (grind arith, ground arith)

abbrev pub abs : ℤ → ℕ
abs (pos n) = n
abs (negsuc n) = suc n

-- The overflowing quotient, and division by 0: no trap, and the results of the M extension.
pub division_corners :
    (a : ℕ)
    → (mul_div 4 a 0 ≡ 4294967295)
      × (mul_div 5 a 0 ≡ 4294967295)
      × (mul_div 6 a 0 ≡ a)
      × (mul_div 7 a 0 ≡ a)
      × (mul_div 4 2147483648 4294967295 ≡ 2147483648)
      × (mul_div 6 2147483648 4294967295 ≡ 0)
unfolding mul_div
division_corners a = (refl, refl, refl, refl, refl, refl)

neg-zero_of : (n : ℕ) → n ≢ 0 → neg n ≡ negsuc (n - 1)
neg-zero_of zero h = absurd (h refl)
neg-zero_of (suc n) h = ap negsuc (omega arith)

-- DIV truncates towards zero and does not wrap, but for the one overflow.
pub signed_div :
    (a b : ℕ)
    → a < 4294967296
    → b < 4294967296
    → b ≢ 0
    → (a ≢ 2147483648) ⊎ (b ≢ 4294967295)
    → signed32 (mul_div 4 a b) ≡ div_ℤ (signed32 a) (signed32 b)
unfolding mul_div
signed_div a b ha hb h k = grind arith

-- The words of two negative numbers, and of one, against the product of the magnitudes.
product_neg_neg :
    (a b x y : ℕ)
    → a + x ≡ 4294967296
    → b + y ≡ 4294967296
    → x * y + 4294967296 * (a + b) ≡ 18446744073709551616 + a * b
product_neg_neg a b x y p q = omega (arith, ap (λ (t : ℕ). t * b) p, ap (λ (t : ℕ). x * t) q)

product_neg : (a b x : ℕ) → a + x ≡ 4294967296 → a * b + x * b ≡ 4294967296 * b
product_neg a b x p = omega (arith, ap (λ (t : ℕ). t * b) p)

product-le : (x y : ℕ) → x ≤ 4294967295 → y ≤ 4294967296 → x * y ≤ 18446744069414584320
product-le x y h k = grind arith

neg_word : (n : ℕ) → n ≤ 18446744073709551615 → (to_u64 (neg n) + n) % 18446744073709551616 ≡ 0
neg_word zero h = refl
neg_word (suc n) h = omega arith

low_mixed :
    (a b : ℕ)
    → a < 4294967296
    → b < 4294967296
    → to_u64 (neg (a * suc (4294967295 - b))) % 4294967296 ≡ (a * b) % 4294967296
low_mixed a b ha hb = omega (
  arith,
  neg_word (a * suc (4294967295 - b))
      (omega (arith, product-le a (suc (4294967295 - b)) (omega arith) (omega arith))),
  product_neg b a (suc (4294967295 - b)) (omega arith),
)

low_mixed' :
    (a b : ℕ)
    → a < 4294967296
    → b < 4294967296
    → to_u64 (neg (suc (4294967295 - a) * b)) % 4294967296 ≡ (a * b) % 4294967296
low_mixed' a b ha hb = omega (
  arith,
  neg_word (suc (4294967295 - a) * b)
      (omega (arith, product-le b (suc (4294967295 - a)) (omega arith) (omega arith))),
  product_neg a b (suc (4294967295 - a)) (omega arith),
)

low_word :
    (a b : ℕ)
    → a < 4294967296
    → b < 4294967296
    → to_u64 (signed32 a *ℤ signed32 b) % 4294967296 ≡ (a * b) % 4294967296
low_word a b ha hb = elim (Bool-cases (ltb a 2147483648)) [
  | inl p ↦ elim (Bool-cases (ltb b 2147483648)) [
    | inl q ↦ rw (p, q) (omega (arith, product-le a b))
    | inr q ↦ rw (p, q) (low_mixed a b ha hb)
  ]
  | inr p ↦ elim (Bool-cases (ltb b 2147483648)) [
    | inl q ↦ rw (p, q) (low_mixed' a b ha hb)
    | inr q ↦
        rw (p, q)
          (omega (
            arith,
            product_neg_neg a b (suc (4294967295 - a)) (suc (4294967295 - b)) (omega arith)
                (omega arith),
          ))
  ]
]

-- MULH and MUL are the two halves of the signed product.
pub mulh_mul :
    (a b : ℕ)
    → a < 4294967296
    → b < 4294967296
    → mul_div 1 a b * 4294967296 + mul_div 0 a b ≡ to_u64 (signed32 a *ℤ signed32 b)
unfolding mul_div
mulh_mul a b ha hb = ground (arith, low_word a b)
