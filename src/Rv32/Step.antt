-- ===== src/Rv32/Step.antt =====
-- One step of the processor: a pending interrupt, or one instruction.
use ue2_c64u_emulator.Base.{
  ℕ, ◌+◌, ◌*◌, ◌/◌, ◌%◌, ◌^◌, bit_and, bit_or, Bool, if◌then◌else◌, ◌==◌, ◌&&◌, ◌||◌, ltb, u8, u16,
  u32, not32, has, List, get_or, set,
}
use ue2_c64u_emulator.Rv32.Bus.{Bus}
use ue2_c64u_emulator.Rv32.State.{
  Cpu, Exit, stepped, interrupt, wfi, ebreak, illegal, csr_read, csr_write, trap, mret, meie,
  mstatus_mie, mcause_mei, mcause_ecall_m, mcause_breakpoint, mcause_illegal,
}
use ue2_c64u_emulator.Rv32.Alu.{op_imm, op, branch_taken, imm_i, imm_s, imm_b, imm_j, add32, sra32}

abbrev pub rd_of : ℕ → ℕ
rd_of insn = insn / 2 ^ 7 % 32

abbrev pub f3_of : ℕ → ℕ
f3_of insn = insn / 2 ^ 12 % 8

abbrev pub reg : Cpu → ℕ → ℕ
reg c i = get_or c.x i 0

-- `x[0] = 0; pc = next`, at the end of an instruction that wrote the registers `x`.
unfoldable pub retire : Cpu → List ℕ → ℕ → Cpu
retire c x next = record c { x = set x 0 0; pc = next }

-- A byte or a half word, sign extended.
abbrev pub sext8 : ℕ → ℕ
sext8 v = if ltb v 128 then v else v + 4294967040

abbrev pub sext16 : ℕ → ℕ
sext16 v = if ltb v 32768 then v else v + 4294901760

-- The source operand and the new value of a CSR instruction.
unfoldable pub csr_operand : ℕ → ℕ → ℕ
csr_operand insn rs1 = if has (f3_of insn) 4 then sra32 (u32 (insn * 2 ^ 12)) 27 else rs1

unfoldable pub csr_new : ℕ → ℕ → ℕ → ℕ
csr_new f3 old src =
    if f3 % 4 == 1 then src else if f3 % 4 == 2 then bit_or old src else bit_and old (not32 src)

unfoldable pub advance : Cpu → Cpu
advance c = record c { pc = add32 c.pc 4 }

unfoldable pub csr_access : Cpu → ℕ → ℕ → ℕ → Cpu
csr_access c insn rd rs1 =
    let addr = insn / 2 ^ 20 in
    let old = csr_read c addr in
    let c' = csr_write c addr (csr_new (f3_of insn) old (csr_operand insn rs1)) in
    record c' { x = set (set c'.x rd old) 0 0 }

-- The SYSTEM opcode; `c.pc` still holds the address of the instruction.
unfoldable pub system : Cpu → ℕ → ℕ → ℕ → Exit × Cpu
system c insn rd rs1 =
    let f3 = f3_of insn in
    let imm = insn / 2 ^ 20 in
    if f3 == 0 && imm == 0x000
    then (stepped, trap c mcause_ecall_m)
    else if f3 == 0 && imm == 0x001
    then (ebreak, trap c mcause_breakpoint)
    else if f3 == 0 && imm == 0x302
    then (stepped, mret c)
    else if f3 == 0 && imm == 0x105
    then (wfi, advance c)
    else if f3 == 0 || f3 == 4
    then (stepped, advance c)
    else (stepped, advance (csr_access c insn rd rs1))

-- The interrupt line is up and enabled.
abbrev pub takes_interrupt : Cpu → Bool
takes_interrupt c = c.meip && has c.csr.mie meie && has c.csr.mstatus mstatus_mie

module _ {B : Type 0} (bus : Bus B) where
  -- The value that a LOAD writes, and the bus after the access.
  unfoldable pub load : ℕ → B → ℕ → ℕ × B
  load f3 b addr =
      if f3 == 0
      then (let (v, b') = bus.read8 b addr in (sext8 v, b'))
      else if f3 == 1
      then (let (v, b') = bus.read16 b addr in (sext16 v, b'))
      else if f3 == 4
      then bus.read8 b addr
      else if f3 == 5
      then bus.read16 b addr
      else bus.read32 b addr

  unfoldable pub save : ℕ → B → ℕ → ℕ → B
  save f3 b addr val =
      if f3 % 4 == 0
      then bus.write8 b addr (u8 val)
      else if f3 % 4 == 1
      then bus.write16 b addr (u16 val)
      else bus.write32 b addr val

  -- The `match` on the opcode of the fetched word; `c` has counted the instruction.
  unfoldable pub execute : Cpu → ℕ → B → Exit × Cpu × B
  execute c insn b =
      let rd = rd_of insn in
      let f3 = f3_of insn in
      let rs1 = reg c (insn / 2 ^ 15 % 32) in
      let rs2 = reg c (insn / 2 ^ 20 % 32) in
      let next = add32 c.pc 4 in
      let opcode = insn % 128 in
      if opcode == 0x03
      then (let (v, b') = load f3 b (add32 rs1 (imm_i insn)) in
          (stepped, retire c (set c.x rd v) next, b'))
      else if opcode == 0x0f
      then (stepped, retire c c.x next, b)
      else if opcode == 0x13
      then (stepped, retire c (set c.x rd (op_imm insn rs1 (imm_i insn))) next, b)
      else if opcode == 0x17
      then (stepped, retire c (set c.x rd (add32 c.pc (bit_and insn 0xfffff000))) next, b)
      else if opcode == 0x23
      then (stepped, retire c c.x next, save f3 b (add32 rs1 (imm_s insn)) rs2)
      else if opcode == 0x33
      then (stepped, retire c (set c.x rd (op insn rs1 rs2)) next, b)
      else if opcode == 0x37
      then (stepped, retire c (set c.x rd (bit_and insn 0xfffff000)) next, b)
      else if opcode == 0x63
      then (
        stepped,
        retire c c.x
            (if branch_taken f3 rs1 rs2 then bit_and (add32 c.pc (imm_b insn)) (not32 3) else next),
        b,
      )
      else if opcode == 0x67
      then (stepped, retire c (set c.x rd next) (bit_and (add32 rs1 (imm_i insn)) (not32 3)), b)
      else if opcode == 0x6f
      then (stepped, retire c (set c.x rd next) (bit_and (add32 c.pc (imm_j insn)) (not32 3)), b)
      else if opcode == 0x73
      then (let (e, c') = system c insn rd rs1 in (e, c', b))
      else (illegal insn, trap c mcause_illegal, b)

  unfoldable pub step : Cpu → B → Exit × Cpu × B
  step c b =
      let (insn, b') = bus.fetch b c.pc in
      if takes_interrupt c
      then (interrupt, trap c mcause_mei, b)
      else execute (record c { insns = (c.insns + 1) % 2 ^ 64 }) insn b'
