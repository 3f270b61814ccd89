-- ===== src/Rv32/Widths.antt =====
-- The arithmetic of the processor stays within 32 bits.
use ue2_c64u_emulator.Base.{
  ℕ, zero, suc, ◌+◌, ◌-◌, ◌*◌, ◌/◌, ◌%◌, ◌^◌, ◌<◌, ◌≡◌, sym, ap, ◌∙◌, arith, bit_and, bit_or,
  bit_xor, Bool, true, false, ◌&&◌, ◌==◌, from_bool, not32, has, if_elim,
}
use native.Mathlib.Nat.{add-zero, add-suc, pow-suc, one-le-pow, div-lt_iff_lt-mul}
use ue2_c64u_emulator.Base.Bits.{bit_and-le, bit_or-lt, bit_xor-lt}
use ue2_c64u_emulator.Base.Masks.{align_lem}
use ue2_c64u_emulator.Base.Int.{ℤ, signed32, to_u32, to_u64, ◌*ℤ◌, div_ℤ, rem_ℤ, pos, negsuc}
use ue2_c64u_emulator.Rv32.Alu.{op_imm, op, mul_div, sra32, shl32, add32, sub32, imm_i}

abbrev pub IsWord : ℕ → Type 0
IsWord v = v < 4294967296

pow-add : (j k : ℕ) → 2 ^ (j + k) ≡ 2 ^ j * 2 ^ k
pow-add j zero = omega (arith, ap (λ n. 2 ^ n) (add-zero j))
pow-add j (suc k) =
    ap (λ n. 2 ^ n) (add-suc j k)
    ∙ omega (
      arith,
      pow-suc 2 (j + k),
      ap (λ (t : ℕ). 2 ^ j * t) (pow-suc 2 k),
      ap (λ (t : ℕ). t * 2) (pow-add j k),
    )

-- The sign fills what the shift leaves free.
pub sra32-IsWord : (x k : ℕ) → IsWord x → k < 32 → IsWord (sra32 x k)
unfolding sra32
sra32-IsWord x k h lt = ground (arith, split, quotient)
  where
    split : 2 ^ (32 - k) * 2 ^ k ≡ 4294967296
    split = sym (pow-add (32 - k) k) ∙ (let e : 32 - k + k ≡ 32 = omega arith in ap (λ n. 2 ^ n) e)

    quotient : x / 2 ^ k < 2 ^ (32 - k)
    quotient =
        (div-lt_iff_lt-mul {k = 2 ^ k} {x = x} {y = 2 ^ (32 - k)} (one-le-pow k 2 (omega arith))).1
          (rw split h)

to_u64-lt : (z : ℤ) → to_u64 z < 18446744073709551616
to_u64-lt (pos n) = omega arith
to_u64-lt (negsuc n) = omega arith

to_u32-lt : (z : ℤ) → to_u32 z < 4294967296
to_u32-lt (pos n) = omega arith
to_u32-lt (negsuc n) = omega arith

mul_div-IsWord : (f3 a b : ℕ) → IsWord a → IsWord b → IsWord (mul_div f3 a b)
unfolding mul_div
mul_div-IsWord f3 a b ha hb = ground (
  arith,
  to_u64-lt (signed32 a *ℤ signed32 b),
  to_u64-lt (signed32 a *ℤ pos b),
  to_u32-lt (div_ℤ (signed32 a) (signed32 b)),
  to_u32-lt (rem_ℤ (signed32 a) (signed32 b)),
)

shr-IsWord : (x k : ℕ) → IsWord x → IsWord (x / 2 ^ k)
shr-IsWord x k h = omega arith

from_bool-IsWord : (b : Bool) → IsWord (from_bool b)
from_bool-IsWord true = omega arith
from_bool-IsWord false = omega arith

pub bitwise-IsWord :
    (a b : ℕ)
    → IsWord a
    → IsWord b
    → IsWord (bit_and a b) × IsWord (bit_or a b) × IsWord (bit_xor a b)
bitwise-IsWord a b ha hb =
    (omega (arith, bit_and-le a b), bit_or-lt 32 a b ha hb, bit_xor-lt 32 a b ha hb)

pub add32-IsWord : (a b : ℕ) → IsWord (add32 a b)
unfolding add32
add32-IsWord a b = omega arith

sub32-IsWord : (a b : ℕ) → IsWord (sub32 a b)
unfolding sub32
sub32-IsWord a b = omega arith

shl32-IsWord : (a b : ℕ) → IsWord (shl32 a b)
unfolding shl32
shl32-IsWord a b = omega arith

pub op_imm-IsWord : (insn a b : ℕ) → IsWord a → IsWord b → IsWord (op_imm insn a b)
unfolding op_imm
op_imm-IsWord insn a b ha hb =
    let (low, high, mixed) = bitwise-IsWord a b ha hb in
    let each = if_elim IsWord in
    each (insn / 2 ^ 12 % 8 == 0) _ _ (add32-IsWord a b) (
      each (insn / 2 ^ 12 % 8 == 1) _ _ (shl32-IsWord a _) (
        each (insn / 2 ^ 12 % 8 == 2) _ _ (from_bool-IsWord _) (
          each (insn / 2 ^ 12 % 8 == 3) _ _ (from_bool-IsWord _) (
            each (insn / 2 ^ 12 % 8 == 4) _ _ mixed (
              each (insn / 2 ^ 12 % 8 == 5 && has insn (2 ^ 30)) _ _
                (sra32-IsWord a (insn / 2 ^ 20 % 32) ha (omega arith))
                (each (insn / 2 ^ 12 % 8 == 5) _ _ (shr-IsWord a _ ha)
                  (each (insn / 2 ^ 12 % 8 == 6) _ _ high low)))))))

pub op-IsWord : (insn a b : ℕ) → IsWord a → IsWord b → IsWord (op insn a b)
unfolding op
op-IsWord insn a b ha hb =
    let (low, high, mixed) = bitwise-IsWord a b ha hb in
    let each = if_elim IsWord in
    each (has insn (2 ^ 25)) _ _ (mul_div-IsWord (insn / 2 ^ 12 % 8) a b ha hb) (
      each (insn / 2 ^ 12 % 8 == 0 && has insn (2 ^ 30)) _ _ (sub32-IsWord a b) (
        each (insn / 2 ^ 12 % 8 == 0) _ _ (add32-IsWord a b) (
          each (insn / 2 ^ 12 % 8 == 1) _ _ (shl32-IsWord a _) (
            each (insn / 2 ^ 12 % 8 == 2) _ _ (from_bool-IsWord _) (
              each (insn / 2 ^ 12 % 8 == 3) _ _ (from_bool-IsWord _) (
                each (insn / 2 ^ 12 % 8 == 4) _ _ mixed (
                  each (insn / 2 ^ 12 % 8 == 5 && has insn (2 ^ 30)) _ _
                    (sra32-IsWord a (b % 32) ha (omega arith))
                    (each (insn / 2 ^ 12 % 8 == 5) _ _ (shr-IsWord a _ ha)
                      (each (insn / 2 ^ 12 % 8 == 6) _ _ high low)))))))))

-- An aligned target, and the next instruction.
pub align_target : (t : ℕ) → IsWord t → IsWord (bit_and t (not32 3)) × (bit_and t (not32 3) % 4 ≡ 0)
align_target t h = (omega (arith, align_lem t h), omega (arith, align_lem t h))

pub imm_i-IsWord : (insn : ℕ) → IsWord insn → IsWord (imm_i insn)
unfolding imm_i
imm_i-IsWord insn h = sra32-IsWord insn 20 h (omega arith)
