-- ===== src/Base/Bits/Step.antt =====
-- The lowest digit of the bitwise operations, from the recursion that they stand for.
use Prim.Native.Nat.{
  ℕ, zero, suc, ◌+◌, ◌-◌, ◌*◌, ◌/◌, ◌%◌, ◌≤◌, ◌<◌, differ, min, max, bit_and, bit_or, bit_xor,
  digits, bitwise, bit_and-bitwise, bit_or-bitwise, bit_xor-bitwise,
}
use mathlib.Core.Path.{◌≡◌, refl, ◌∙◌}
use native.Mathlib.Omega.{arith}

module _ (rest : ℕ → ℕ) (digit : ℕ → ℕ → ℕ) where
  -- Fuel beyond the number itself is spare.
  one_more :
      (fuel m n : ℕ) → m ≤ fuel → digits rest digit (suc fuel) m n ≡ digits rest digit fuel m n
  one_more zero zero n le = refl
  one_more (suc fuel) zero n le = refl
  one_more zero (suc m) n le = absurd (omega arith)
  one_more (suc fuel) (suc m) n le = rw (one_more fuel (suc m / 2) (n / 2) (omega arith)) refl

  spare :
      (extra fuel m n : ℕ) → fuel ≡ extra + m → digits rest digit fuel m n ≡ digits rest digit m m n
  spare zero fuel m n e = let same : fuel ≡ m = omega arith in rw same refl
  spare (suc extra) zero m n e = absurd (omega arith)
  spare (suc extra) (suc fuel) m n e =
      one_more fuel m n (omega arith) ∙ spare extra fuel m n (omega arith)

  halves :
      (m n : ℕ)
      → bitwise rest digit (suc m) n
        ≡ digit (suc m % 2) (n % 2) + 2 * bitwise rest digit (suc m / 2) (n / 2)
  halves m n = omega (arith, spare (m - suc m / 2) m (suc m / 2) (n / 2) (omega arith))

pub bit_xor-halves : (m n : ℕ) → bit_xor m n ≡ (m % 2 + n % 2) % 2 + 2 * bit_xor (m / 2) (n / 2)
bit_xor-halves zero n = simp bit_xor-bitwise (omega arith)
bit_xor-halves (suc m) n =
    simp bit_xor-bitwise (omega (arith, halves (λ y. y) differ m n, one_digit (suc m) n))
  where
    table : (x y : ℕ) → x < 2 → y < 2 → differ x y ≡ (x + y) % 2
    table zero y p q = omega arith
    table (suc zero) zero p q = refl
    table (suc zero) (suc zero) p q = refl
    table (suc zero) (suc (suc y)) p q = absurd (omega arith)
    table (suc (suc x)) y p q = absurd (omega arith)

    one_digit : (x y : ℕ) → differ (x % 2) (y % 2) ≡ (x % 2 + y % 2) % 2
    one_digit x y = table (x % 2) (y % 2) (omega arith) (omega arith)

pub bit_or-halves : (m n : ℕ) → bit_or m n ≡ max (m % 2) (n % 2) + 2 * bit_or (m / 2) (n / 2)
bit_or-halves zero n = simp bit_or-bitwise (omega arith)
bit_or-halves (suc m) n = simp bit_or-bitwise (omega (arith, halves (λ y. y) max m n))

pub bit_and-halves : (m n : ℕ) → bit_and m n ≡ min (m % 2) (n % 2) + 2 * bit_and (m / 2) (n / 2)
bit_and-halves zero n = simp bit_and-bitwise (omega arith)
bit_and-halves (suc m) n = simp bit_and-bitwise (omega (arith, halves (λ y. 0) min m n))
