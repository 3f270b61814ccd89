-- ===== src/Base/Bits.antt =====
-- The bits of a number, and what `&`, `|`, `^` and `!` do to them.
mod Step
pub use Step.{bit_and-halves, bit_or-halves, bit_xor-halves}
use Prim.Native.Nat.{
  ℕ, zero, suc, ◌+◌, ◌-◌, ◌*◌, ◌/◌, ◌%◌, ◌^◌, ◌≤◌, ◌<◌, min, max, bit_and, bit_or, bit_xor,
  bit_and-bitwise,
}
use mathlib.Core.Path.{◌≡◌, refl, sym, ◌∙◌}
use mathlib.Core.Bool.{Bool, true, false, not, ◌&&◌, ◌||◌, xor}
use mathlib.Core.Logic.{inl, inr}
use native.Mathlib.Nat.{pow-suc}
use native.Mathlib.Omega.{arith}
use ue2_c64u_emulator.Base.Tests.{◌==◌, Bool-cases}

-- Bit `i` of `n`.
unfoldable pub bit_at : ℕ → ℕ → Bool
bit_at n zero = n % 2 == 1
bit_at n (suc i) = bit_at (n / 2) i

pub bit_at-bit_and : (i a b : ℕ) → bit_at (bit_and a b) i ≡ (bit_at a i && bit_at b i)
unfolding bit_at
bit_at-bit_and zero a b = ground (arith, bit_and-halves a b)
bit_at-bit_and (suc i) a b = ground (arith, half, bit_at-bit_and i (a / 2) (b / 2))
  where
    half : bit_and a b / 2 ≡ bit_and (a / 2) (b / 2)
    half = omega (arith, bit_and-halves a b)

pub bit_at-bit_or : (i a b : ℕ) → bit_at (bit_or a b) i ≡ (bit_at a i || bit_at b i)
unfolding bit_at
bit_at-bit_or zero a b = ground (arith, bit_or-halves a b)
bit_at-bit_or (suc i) a b = ground (arith, half, bit_at-bit_or i (a / 2) (b / 2))
  where
    half : bit_or a b / 2 ≡ bit_or (a / 2) (b / 2)
    half = omega (arith, bit_or-halves a b)

-- The complement of a number below `2 ^ w`, at a bit below `w`.
pub bit_at-not : (w i a : ℕ) → i < w → a < 2 ^ w → bit_at (2 ^ w - 1 - a) i ≡ not (bit_at a i)
unfolding bit_at
bit_at-not zero i a h k = absurd (omega arith)
bit_at-not (suc w) zero a h k = ground (arith, pow-suc 2 w)
bit_at-not (suc w) (suc i) a h k = ground (arith, half, bit_at-not w i (a / 2))
  where
    half : (2 ^ suc w - 1 - a) / 2 ≡ 2 ^ w - 1 - a / 2
    half = omega (arith, pow-suc 2 w)

pub bit_at-not8 : (i a : ℕ) → i < 8 → a < 256 → bit_at (255 - a) i ≡ not (bit_at a i)
bit_at-not8 i a h k = bit_at-not 8 i a h k

pub bit_at-pow : (k i : ℕ) → bit_at (2 ^ k) i ≡ (i == k)
unfolding bit_at
bit_at-pow zero zero = refl
bit_at-pow zero (suc i) = ground (arith, bit_at-zero i)
  where
    bit_at-zero : (i : ℕ) → bit_at 0 i ≡ false
    bit_at-zero zero = refl
    bit_at-zero (suc i) = bit_at-zero i
bit_at-pow (suc k) zero = ground (arith, pow-suc 2 k)
bit_at-pow (suc k) (suc i) = ground (arith, half, bit_at-pow k i)
  where
    half : 2 ^ suc k / 2 ≡ 2 ^ k
    half = omega (arith, pow-suc 2 k)

pub bit_at-bit_xor : (i a b : ℕ) → bit_at (bit_xor a b) i ≡ xor (bit_at a i) (bit_at b i)
unfolding bit_at xor
bit_at-bit_xor zero a b = ground (arith, bit_xor-halves a b)
bit_at-bit_xor (suc i) a b = ground (arith, half, bit_at-bit_xor i (a / 2) (b / 2))
  where
    half : bit_xor a b / 2 ≡ bit_xor (a / 2) (b / 2)
    half = omega (arith, bit_xor-halves a b)

-- Two numbers below `2 ^ w` with the same bits are equal.
pub eq_of_bits :
    (w a b : ℕ) → a < 2 ^ w → b < 2 ^ w → ((i : ℕ) → i < w → bit_at a i ≡ bit_at b i) → a ≡ b
unfolding bit_at
eq_of_bits zero a b ha hb h = omega arith
eq_of_bits (suc w) a b ha hb h =
    let tail : a / 2 ≡ b / 2 =
      eq_of_bits w (a / 2) (b / 2) (omega (arith, pow-suc 2 w)) (omega (arith, pow-suc 2 w))
        (λ i lt. h (suc i) (omega arith)) in
    ground (arith, tail, h 0 (omega arith))

-- Bounds: `&` does not exceed an argument, and the operations stay within the width.
bit_and-bounded : (n a b : ℕ) → a ≤ n → bit_and a b ≤ b
bit_and-bounded zero a b h =
    let e : a ≡ 0 = omega arith in rw e (omega (arith, bit_and-halves 0 b, bit_and-bitwise 0 b))
bit_and-bounded (suc n) zero b h = omega (arith, bit_and-bitwise 0 b)
bit_and-bounded (suc n) (suc a) b h =
    omega (arith, bit_and-halves (suc a) b, bit_and-bounded n (suc a / 2) (b / 2) (omega arith))

pub bit_and-le : (a b : ℕ) → bit_and a b ≤ b
bit_and-le a b = bit_and-bounded a a b (omega arith)

bit_and-bounded_left : (n a b : ℕ) → a ≤ n → bit_and a b ≤ a
bit_and-bounded_left n zero b h = omega (arith, bit_and-bitwise 0 b)
bit_and-bounded_left zero (suc a) b h = absurd (omega arith)
bit_and-bounded_left (suc n) (suc a) b h =
    omega
      (arith, bit_and-halves (suc a) b, bit_and-bounded_left n (suc a / 2) (b / 2) (omega arith))

pub bit_and-le_left : (a b : ℕ) → bit_and a b ≤ a
bit_and-le_left a b = bit_and-bounded_left a a b (omega arith)

pub bit_or-lt : (w a b : ℕ) → a < 2 ^ w → b < 2 ^ w → bit_or a b < 2 ^ w
bit_or-lt zero a b h k =
    let e : a ≡ 0 = omega arith in let e' : b ≡ 0 = omega arith in rw (e, e') (omega arith)
bit_or-lt (suc w) a b h k = omega (
  arith,
  pow-suc 2 w,
  bit_or-halves a b,
  bit_or-lt w (a / 2) (b / 2) (omega (arith, pow-suc 2 w)) (omega (arith, pow-suc 2 w)),
)

pub bit_xor-lt : (w a b : ℕ) → a < 2 ^ w → b < 2 ^ w → bit_xor a b < 2 ^ w
bit_xor-lt zero a b h k =
    let e : a ≡ 0 = omega arith in let e' : b ≡ 0 = omega arith in rw (e, e') (omega arith)
bit_xor-lt (suc w) a b h k = omega (
  arith,
  pow-suc 2 w,
  bit_xor-halves a b,
  bit_xor-lt w (a / 2) (b / 2) (omega (arith, pow-suc 2 w)) (omega (arith, pow-suc 2 w)),
)

pub bit_at-zero : (i : ℕ) → bit_at 0 i ≡ false
unfolding bit_at
bit_at-zero zero = refl
bit_at-zero (suc i) = bit_at-zero i

-- A number below `2 ^ w` is nonzero exactly when one of its `w` bits is set.
pub any_bit : ℕ → ℕ → Bool
any_bit zero n = false
any_bit (suc w) n = bit_at n 0 || any_bit w (n / 2)

pub any_bit-ne_zero : (w n : ℕ) → n < 2 ^ w → not (n == 0) ≡ any_bit w n
unfolding any_bit bit_at
any_bit-ne_zero zero n h = ground arith
any_bit-ne_zero (suc w) n h =
    ground (arith, pow-suc 2 w, any_bit-ne_zero w (n / 2) (omega (arith, pow-suc 2 w)))

pub any_bit-intro : (w n i : ℕ) → i < w → bit_at n i ≡ true → any_bit w n ≡ true
unfolding any_bit bit_at
any_bit-intro zero n i h k = absurd (omega arith)
any_bit-intro (suc w) n zero h k = ground arith
any_bit-intro (suc w) n (suc i) h k = ground (arith, any_bit-intro w (n / 2) i (omega arith) k)

pub any_bit-elim : (w n : ℕ) → any_bit w n ≡ true → (i : ℕ) × (i < w) × (bit_at n i ≡ true)
unfolding any_bit bit_at
any_bit-elim zero n h = cc
any_bit-elim (suc w) n h = elim (Bool-cases (bit_at n 0)) [
  | inl e ↦ (0, omega arith, e)
  | inr e ↦ next (any_bit-elim w (n / 2) (ground arith))
]
  where
    next :
        ((i : ℕ) × (i < w) × (bit_at (n / 2) i ≡ true))
        → (i : ℕ) × (i < suc w) × (bit_at n i ≡ true)
    next r = (suc r.0, omega arith, r.2)

pub ne_zero-bit :
    (w n : ℕ) → n < 2 ^ w → not (n == 0) ≡ true → (i : ℕ) × (i < w) × (bit_at n i ≡ true)
ne_zero-bit w n h e = any_bit-elim w n (sym (any_bit-ne_zero w n h) ∙ e)

pub ne_zero_of_bit : (w n i : ℕ) → n < 2 ^ w → i < w → bit_at n i ≡ true → not (n == 0) ≡ true
ne_zero_of_bit w n i h k e = any_bit-ne_zero w n h ∙ any_bit-intro w n i k e
