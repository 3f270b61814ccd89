-- ===== src/Rv32/Alu.antt =====
-- The arithmetic of the processor on 32-bit words: the operations, the comparisons of branches, the
-- multiplications and divisions, and the immediates of each instruction format.
use ue2_c64u_emulator.Base.{
  ℕ, ◌+◌, ◌-◌, ◌*◌, ◌/◌, ◌%◌, ◌^◌, bit_and, bit_or, bit_xor, Bool, true, false, not, if◌then◌else◌,
  ◌==◌, ◌&&◌, ltb, leb, from_bool, u32, not32, has,
}
use ue2_c64u_emulator.Base.Int.{signed32, ltb_ℤ, ◌*ℤ◌, div_ℤ, rem_ℤ, to_u32, to_u64, pos}

-- `(x as i32) >> k`: the sign fills the `k` high bits.
unfoldable pub sra32 : ℕ → ℕ → ℕ
sra32 x k = if ltb x 2147483648 then x / 2 ^ k else x / 2 ^ k + (4294967296 - 2 ^ (32 - k))

unfoldable pub shl32 : ℕ → ℕ → ℕ
shl32 x k = u32 (x * 2 ^ k)

-- `(a as i32) < (b as i32)`
unfoldable pub lt_signed : ℕ → ℕ → Bool
lt_signed a b = ltb_ℤ (signed32 a) (signed32 b)

unfoldable pub add32 : ℕ → ℕ → ℕ
add32 a b = u32 (a + b)

unfoldable pub sub32 : ℕ → ℕ → ℕ
sub32 a b = u32 (a + 4294967296 - b)

unfoldable pub mul_div : ℕ → ℕ → ℕ → ℕ
mul_div f3 a b =
    if f3 == 0
    then u32 (a * b)
    else if f3 == 1
    then to_u64 (signed32 a *ℤ signed32 b) / 4294967296
    else if f3 == 2
    then to_u64 (signed32 a *ℤ pos b) / 4294967296
    else if f3 == 3
    then u32 (a * b / 4294967296)
    else if f3 == 4 && b == 0
    then 4294967295
    else if f3 == 4
    then to_u32 (div_ℤ (signed32 a) (signed32 b))
    else if f3 == 5 && b == 0
    then 4294967295
    else if f3 == 5
    then a / b
    else if f3 == 6 && b == 0
    then a
    else if f3 == 6
    then to_u32 (rem_ℤ (signed32 a) (signed32 b))
    else if b == 0
    then a
    else a % b

-- The OP-IMM group, on the instruction word, the register and the immediate.
unfoldable pub op_imm : ℕ → ℕ → ℕ → ℕ
op_imm insn rs1 imm =
    let f3 = insn / 2 ^ 12 % 8 in
    let shamt = insn / 2 ^ 20 % 32 in
    if f3 == 0
    then add32 rs1 imm
    else if f3 == 1
    then shl32 rs1 shamt
    else if f3 == 2
    then from_bool (lt_signed rs1 imm)
    else if f3 == 3
    then from_bool (ltb rs1 imm)
    else if f3 == 4
    then bit_xor rs1 imm
    else if f3 == 5 && has insn (2 ^ 30)
    then sra32 rs1 shamt
    else if f3 == 5
    then rs1 / 2 ^ shamt
    else if f3 == 6
    then bit_or rs1 imm
    else bit_and rs1 imm

-- The OP group.
unfoldable pub op : ℕ → ℕ → ℕ → ℕ
op insn rs1 rs2 =
    let f3 = insn / 2 ^ 12 % 8 in
    if has insn (2 ^ 25)
    then mul_div f3 rs1 rs2
    else if f3 == 0 && has insn (2 ^ 30)
    then sub32 rs1 rs2
    else if f3 == 0
    then add32 rs1 rs2
    else if f3 == 1
    then shl32 rs1 (rs2 % 32)
    else if f3 == 2
    then from_bool (lt_signed rs1 rs2)
    else if f3 == 3
    then from_bool (ltb rs1 rs2)
    else if f3 == 4
    then bit_xor rs1 rs2
    else if f3 == 5 && has insn (2 ^ 30)
    then sra32 rs1 (rs2 % 32)
    else if f3 == 5
    then rs1 / 2 ^ (rs2 % 32)
    else if f3 == 6
    then bit_or rs1 rs2
    else bit_and rs1 rs2

unfoldable pub branch_taken : ℕ → ℕ → ℕ → Bool
branch_taken f3 rs1 rs2 =
    if f3 == 0
    then rs1 == rs2
    else if f3 == 1
    then not (rs1 == rs2)
    else if f3 == 2
    then false
    else if f3 == 3
    then true
    else if f3 == 4
    then lt_signed rs1 rs2
    else if f3 == 5
    then not (lt_signed rs1 rs2)
    else if f3 == 6
    then ltb rs1 rs2
    else leb rs2 rs1

-- The immediates of the formats, sign extended.
unfoldable pub imm_i : ℕ → ℕ
imm_i insn = sra32 insn 20

unfoldable pub imm_s : ℕ → ℕ
imm_s insn = bit_or (bit_and (sra32 insn 20) (not32 0x1f)) (bit_and (insn / 2 ^ 7) 0x1f)

unfoldable pub imm_b : ℕ → ℕ
imm_b insn =
    bit_or
      (bit_or (bit_or (bit_and (sra32 insn 19) (not32 0xfff)) (bit_and (u32 (insn * 16)) 0x800))
        (bit_and (insn / 2 ^ 20) 0x7e0))
      (bit_and (insn / 2 ^ 7) 0x1e)

unfoldable pub imm_j : ℕ → ℕ
imm_j insn =
    bit_or
      (bit_or (bit_or (bit_and (sra32 insn 11) (not32 0xfffff)) (bit_and insn 0xff000))
        (bit_and (insn / 2 ^ 9) 0x800))
      (bit_and (insn / 2 ^ 20) 0x7fe)
