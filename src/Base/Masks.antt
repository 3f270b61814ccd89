-- ===== src/Base/Masks.antt =====
-- Masks and fields as arithmetic: low masks are remainders, disjoint fields are sums.
use Prim.Native.Nat.{
  ℕ, zero, suc, ◌+◌, ◌-◌, ◌*◌, ◌/◌, ◌%◌, ◌^◌, ◌≤◌, ◌<◌, bit_and, bit_or, bit_or-bitwise,
}
use mathlib.Core.Bool.{◌&&◌, ◌||◌}
use mathlib.Core.Path.{◌≡◌, ap, ◌∙◌}
use native.Mathlib.Nat.{pow-suc, one-le-pow, div-div-eq-div-mul}
use native.Mathlib.Omega.{arith}
use ue2_c64u_emulator.Base.Tests.{◌==◌}
use ue2_c64u_emulator.Base.Words.{has}
use ue2_c64u_emulator.Base.Bits.{
  bit_at, bit_and-halves, bit_or-halves, bit_at-bit_and, bit_at-bit_or, eq_of_bits, bit_and-le,
}

pub bit_and-zero : (a : ℕ) → bit_and a 0 ≡ 0
bit_and-zero a = omega (arith, bit_and-le a 0)

bit_or-zero_upto : (bound x : ℕ) → x ≤ bound → bit_or x 0 ≡ x
bit_or-zero_upto bound zero le = bit_or-bitwise 0 0
bit_or-zero_upto zero (suc x) le = absurd (omega arith)
bit_or-zero_upto (suc bound) (suc x) le =
    omega (arith, bit_or-zero_upto bound (suc x / 2) (omega arith), bit_or-halves (suc x) 0)

pub bit_or-zero : (a : ℕ) → bit_or a 0 ≡ a
bit_or-zero a = bit_or-zero_upto a a (omega arith)

pub zero-bit_or : (a : ℕ) → bit_or 0 a ≡ a
zero-bit_or a = bit_or-bitwise 0 a

mul-pow_suc : (q k : ℕ) → q * 2 ^ suc k ≡ 2 * (q * 2 ^ k)
mul-pow_suc q k = omega (arith, ap (λ (t : ℕ). q * t) (pow-suc 2 k))

mask_of_sum : (k q r : ℕ) → r < 2 ^ k → bit_and (q * 2 ^ k + r) (2 ^ k - 1) ≡ r
mask_of_sum zero q r h = rw bit_and-zero (omega arith)
mask_of_sum (suc k) q r h = ground (
  arith,
  bit_and-halves (q * 2 ^ suc k + r) (2 ^ suc k - 1),
  mul-pow_suc q k,
  pow-suc 2 k,
  one-le-pow k 2,
  mask_of_sum k q (r / 2),
)

-- A mask of the `k` low bits is the remainder by `2 ^ k`.
pub bit_and_mask : (k a : ℕ) → bit_and a (2 ^ k - 1) ≡ a % 2 ^ k
bit_and_mask k a = ground (arith, one-le-pow k 2, mask_of_sum k (a / 2 ^ k) (a % 2 ^ k))

-- The field above `k` bits or the `k` bits below it.
pub bit_or_fields : (k q r : ℕ) → r < 2 ^ k → bit_or r (q * 2 ^ k) ≡ r + q * 2 ^ k
bit_or_fields zero q r h = ground (arith, zero-bit_or q)
bit_or_fields (suc k) q r h = ground (
  arith,
  bit_or-halves r (q * 2 ^ suc k),
  mul-pow_suc q k,
  pow-suc 2 k,
  bit_or_fields k q (r / 2) (omega (arith, pow-suc 2 k)),
)

-- `x & (1 << k) != 0` tests bit `k`.
pub has_pow : (k x : ℕ) → has x (2 ^ k) ≡ bit_at x k
unfolding bit_at has
has_pow zero x = ground (arith, bit_and-halves x 1, bit_and-zero (x / 2))
has_pow (suc k) x =
    ground (arith, bit_and-halves x (2 ^ suc k), halved, pow-suc 2 k, has_pow k (x / 2))
  where
    halved : bit_and (x / 2) (2 ^ suc k / 2) ≡ bit_and (x / 2) (2 ^ k)
    halved = ap (bit_and (x / 2)) (omega (arith, pow-suc 2 k))

-- Bit `i` is the parity of what is left above the `i` bits below it.
pub bit_at-div : (i n : ℕ) → bit_at n i ≡ (n / 2 ^ i % 2 == 1)
unfolding bit_at
bit_at-div zero n = ground arith
bit_at-div (suc i) n = bit_at-div i (n / 2) ∙ ap (λ (t : ℕ). t % 2 == 1) halved
  where
    halved : n / 2 / 2 ^ i ≡ n / 2 ^ suc i
    halved = div-div-eq-div-mul n 2 (2 ^ i) ∙ ap (λ (t : ℕ). n / t) (omega (arith, pow-suc 2 i))

-- `x & !3`
pub align_lem : (x : ℕ) → x < 4294967296 → bit_and x 4294967292 ≡ x / 4 * 4
align_lem x h = omega (
  arith,
  bit_and-halves x 4294967292,
  bit_and-halves (x / 2) 2147483646,
  bit_and_mask 30 (x / 2 / 2),
)

-- A mask applied twice is a mask applied once.
pub bit_and_twice : (a m : ℕ) → m < 4294967296 → bit_and (bit_and a m) m ≡ bit_and a m
bit_and_twice a m h =
    eq_of_bits 32 _ _ (omega (arith, bit_and-le (bit_and a m) m)) (omega (arith, bit_and-le a m))
      (λ i lt. simp bit_at-bit_and (ground arith))

pub has-bit_or : (k a b : ℕ) → has (bit_or a b) (2 ^ k) ≡ (has a (2 ^ k) || has b (2 ^ k))
has-bit_or k a b = simp (has_pow, bit_at-bit_or)

pub has-bit_and : (k a b : ℕ) → has (bit_and a b) (2 ^ k) ≡ (has a (2 ^ k) && has b (2 ^ k))
has-bit_and k a b = simp (has_pow, bit_at-bit_and)

-- The number without its lowest `k` bits.
abbrev pub half : ℕ → ℕ → ℕ
half zero x = x
half (suc k) x = half k (x / 2)

-- A mask that clears the lowest `k` bits.
pub bit_and_high : (k m x : ℕ) → bit_and x (m * 2 ^ k) ≡ bit_and (half k x) m * 2 ^ k
bit_and_high zero m x = let e : m * 2 ^ 0 ≡ m = omega arith in rw e (omega arith)
bit_and_high (suc k) m x = omega (
  arith,
  bit_and-halves x (m * 2 ^ suc k),
  mul-pow_suc m k,
  mul-pow_suc (bit_and (half k (x / 2)) m) k,
  ap (λ (t : ℕ). bit_and (x / 2) t) halved,
  bit_and_high k m (x / 2),
)
  where
    halved : m * 2 ^ suc k / 2 ≡ m * 2 ^ k
    halved = omega (arith, mul-pow_suc m k)
