-- ===== src/Rv32/Invariant.antt =====
-- What holds of the processor's state between any two steps.
use ue2_c64u_emulator.Base.{
  ℕ, ◌*◌, ◌/◌, ◌%◌, ◌^◌, ◌<◌, ◌≡◌, ◌∙◌, arith, bit_and, bit_or, Bool, true, false, ◌==◌,
  if◌then◌else◌, not32, has, length, get_or, set, length-set, get_or-set_self, All, All-set,
  All-get_or, if_elim,
}
use ue2_c64u_emulator.Base.Bits.{bit_and-le, bit_or-lt}
use ue2_c64u_emulator.Rv32.Widths.{
  IsWord, sra32-IsWord, bitwise-IsWord, op_imm-IsWord, op-IsWord, add32-IsWord, imm_i-IsWord,
  align_target,
}
use ue2_c64u_emulator.Rv32.Bus.{Bus}
use ue2_c64u_emulator.Rv32.State.{
  Cpu, Csrs, Exit, csr_read, csrs_write, csr_write, trap, mret, meie, mstatus_mie, mstatus_mpie,
  mstatus_stored,
}
use ue2_c64u_emulator.Rv32.Alu.{add32, branch_taken, imm_i, imm_b, imm_j}
use ue2_c64u_emulator.Rv32.Step.{
  reg, f3_of, retire, load, csr_operand, csr_new, csr_access, advance, system, execute, step,
  takes_interrupt,
}

-- Every control and status register is a word.
pub record AreWords (r : Csrs) : Type 0 where
  pub mstatus_word : IsWord r.mstatus
  pub mie_word : IsWord r.mie
  pub mtvec_word : IsWord r.mtvec
  pub mscratch_word : IsWord r.mscratch
  pub mepc_word : IsWord r.mepc
  pub mcause_word : IsWord r.mcause

-- 32 registers of 32 bits, register 0 zero, an aligned program counter.
pub record IsWellFormed (c : Cpu) : Type 0 where
  pub registers : length c.x ≡ 32
  pub zero_reads_zero : get_or c.x 0 0 ≡ 0
  pub words : All IsWord c.x
  pub pc_word : IsWord c.pc
  pub pc_aligned : c.pc % 4 ≡ 0
  pub csrs : AreWords c.csr

-- The bus returns values of the width that was asked for.
pub record IsTyped {B : Type 0} (bus : Bus B) : Type 0 where
  pub byte : (b : B) (a : ℕ) → (bus.read8 b a).0 < 256
  pub half : (b : B) (a : ℕ) → (bus.read16 b a).0 < 65536
  pub word : (b : B) (a : ℕ) → IsWord (bus.read32 b a).0
  pub instruction : (b : B) (a : ℕ) → IsWord (bus.fetch b a).0

reg-IsWord : (c : Cpu) (i : ℕ) → IsWellFormed c → IsWord (reg c i)
reg-IsWord c i v = All-get_or IsWord c.x i 0 v.words (omega arith)

-- Writing a register, clearing register 0 and moving on keeps the state well formed.
retire-IsWellFormed :
    {c : Cpu} (rd v next : ℕ)
    → IsWellFormed c
    → IsWord v
    → IsWord next
    → next % 4 ≡ 0
    → IsWellFormed (retire c (set c.x rd v) next)
unfolding retire
retire-IsWellFormed {c} rd v next h hv hn ha = record {
  registers = length-set (set c.x rd v) 0 0 ∙ length-set c.x rd v ∙ h.registers;
  zero_reads_zero =
      get_or-set_self (set c.x rd v) 0 0 0 (omega (arith, length-set c.x rd v, h.registers));
  words = All-set IsWord (set c.x rd v) 0 0 (All-set IsWord c.x rd v h.words hv) (omega arith);
  pc_word = hn;
  pc_aligned = ha;
  csrs = h.csrs;
}

retire_same :
    {c : Cpu} (next : ℕ)
    → IsWellFormed c
    → IsWord next
    → next % 4 ≡ 0
    → IsWellFormed (retire c c.x next)
unfolding retire
retire_same {c} next h hn ha = record {
  registers = length-set c.x 0 0 ∙ h.registers;
  zero_reads_zero = get_or-set_self c.x 0 0 0 (omega (arith, h.registers));
  words = All-set IsWord c.x 0 0 h.words (omega arith);
  pc_word = hn;
  pc_aligned = ha;
  csrs = h.csrs;
}

next-IsWord : {c : Cpu} → IsWellFormed c → IsWord (add32 c.pc 4) × (add32 c.pc 4 % 4 ≡ 0)
unfolding add32
next-IsWord v = (omega arith, omega arith)

csrs_write-AreWords :
    {r : Csrs} (addr val : ℕ) → AreWords r → IsWord val → AreWords (csrs_write r addr val)
unfolding csrs_write
csrs_write-AreWords addr val h k =
    ground (arith, bit_and-le val mstatus_stored, bit_and-le val meie, bit_and-le val (not32 3))

csr_read-IsWord : (c : Cpu) (addr : ℕ) → AreWords c.csr → IsWord (csr_read c addr)
unfolding csr_read
csr_read-IsWord c addr h =
    ground (arith, bit_and-le c.csr.mstatus mstatus_stored, bit_and-le c.csr.mie meie)

-- `mstatus` with its stored bits replaced.
status-IsWord : (m p : ℕ) → IsWord p → IsWord (bit_or (bit_and m (not32 mstatus_stored)) p)
status-IsWord m p h = bit_or-lt 32 _ p (omega (arith, bit_and-le m (not32 mstatus_stored))) h

if_IsWord : (b : Bool) (v : ℕ) → IsWord v → IsWord (if b then v else 0)
if_IsWord true v h = h
if_IsWord false v h = omega arith

trap-IsWellFormed :
    {c : Cpu} (cause : ℕ) → IsWord cause → IsWellFormed c → IsWellFormed (trap c cause)
unfolding trap
trap-IsWellFormed {c} cause k h = record {
  registers = h.registers;
  zero_reads_zero = h.zero_reads_zero;
  words = h.words;
  pc_word = (align_target c.csr.mtvec h.csrs.mtvec_word).0;
  pc_aligned = (align_target c.csr.mtvec h.csrs.mtvec_word).1;
  csrs = record {
    mstatus_word =
        status-IsWord c.csr.mstatus _
          (if_IsWord (has c.csr.mstatus mstatus_mie) mstatus_mpie (omega arith));
    mie_word = h.csrs.mie_word;
    mtvec_word = h.csrs.mtvec_word;
    mscratch_word = h.csrs.mscratch_word;
    mepc_word = h.pc_word;
    mcause_word = k;
  };
}

mret-IsWellFormed : {c : Cpu} → IsWellFormed c → IsWellFormed (mret c)
unfolding mret
mret-IsWellFormed {c} h = record {
  registers = h.registers;
  zero_reads_zero = h.zero_reads_zero;
  words = h.words;
  pc_word = (align_target c.csr.mepc h.csrs.mepc_word).0;
  pc_aligned = (align_target c.csr.mepc h.csrs.mepc_word).1;
  csrs = record {
    mstatus_word =
        bit_or-lt 32 _ _ (status-IsWord c.csr.mstatus mstatus_mpie (omega arith))
          (if_IsWord (has c.csr.mstatus mstatus_mpie) mstatus_mie (omega arith));
    mie_word = h.csrs.mie_word;
    mtvec_word = h.csrs.mtvec_word;
    mscratch_word = h.csrs.mscratch_word;
    mepc_word = h.csrs.mepc_word;
    mcause_word = h.csrs.mcause_word;
  };
}

csr_operand-IsWord : (insn rs1 : ℕ) → IsWord rs1 → IsWord (csr_operand insn rs1)
unfolding csr_operand
csr_operand-IsWord insn rs1 h =
    ground (arith, sra32-IsWord (insn * 2 ^ 12 % 4294967296) 27 (omega arith) (omega arith))

csr_new-IsWord : (f3 old src : ℕ) → IsWord old → IsWord src → IsWord (csr_new f3 old src)
unfolding csr_new
csr_new-IsWord f3 old src h k =
    ground (arith, bitwise-IsWord old src h k, bit_and-le old (not32 src))

csr_access-IsWellFormed :
    {c : Cpu} (insn rd rs1 : ℕ)
    → IsWellFormed c
    → IsWord rs1
    → IsWellFormed (csr_access c insn rd rs1)
unfolding csr_access csr_write
csr_access-IsWellFormed {c} insn rd rs1 h k = record {
  registers = length-set (set c.x rd old) 0 0 ∙ length-set c.x rd old ∙ h.registers;
  zero_reads_zero =
      get_or-set_self (set c.x rd old) 0 0 0 (omega (arith, length-set c.x rd old, h.registers));
  words =
      All-set IsWord (set c.x rd old) 0 0 (All-set IsWord c.x rd old h.words old_word)
        (omega arith);
  pc_word = h.pc_word;
  pc_aligned = h.pc_aligned;
  csrs =
      csrs_write-AreWords (insn / 2 ^ 20) _ h.csrs
        (csr_new-IsWord (f3_of insn) old _ old_word (csr_operand-IsWord insn rs1 k));
}
  where
    old : ℕ
    old = csr_read c (insn / 2 ^ 20)

    old_word : IsWord old
    old_word = csr_read-IsWord c (insn / 2 ^ 20) h.csrs

advance-IsWellFormed : {c : Cpu} → IsWellFormed c → IsWellFormed (advance c)
unfolding advance
advance-IsWellFormed {c} h = record {
  registers = h.registers;
  zero_reads_zero = h.zero_reads_zero;
  words = h.words;
  pc_word = (next-IsWord h).0;
  pc_aligned = (next-IsWord h).1;
  csrs = h.csrs;
}

system-IsWellFormed :
    {c : Cpu} (insn rd rs1 : ℕ)
    → IsWellFormed c
    → IsWord rs1
    → IsWellFormed (system c insn rd rs1).1
unfolding system
system-IsWellFormed {c} insn rd rs1 h k = ground (
  arith,
  trap-IsWellFormed 11 (omega arith) h,
  trap-IsWellFormed 3 (omega arith) h,
  mret-IsWellFormed h,
  advance-IsWellFormed h,
  advance-IsWellFormed (csr_access-IsWellFormed insn rd rs1 h k),
)

counted : {c : Cpu} {n : ℕ} → IsWellFormed c → IsWellFormed (record c { insns = n })
counted h = record {
  registers = h.registers;
  zero_reads_zero = h.zero_reads_zero;
  words = h.words;
  pc_word = h.pc_word;
  pc_aligned = h.pc_aligned;
  csrs = h.csrs;
}

module _ {B : Type 0} (bus : Bus B) (typed : IsTyped bus) where
  load-IsWord : (f3 : ℕ) (b : B) (addr : ℕ) → IsWord (load bus f3 b addr).0
  unfolding load
  load-IsWord f3 b addr = ground (arith, typed.byte b addr, typed.half b addr, typed.word b addr)

  execute-IsWellFormed :
      {c : Cpu} (insn : ℕ) (b : B)
      → IsWellFormed c
      → IsWord insn
      → IsWellFormed (execute bus c insn b).1
  unfolding execute
  execute-IsWellFormed {c} insn b h k =
      let each = if_elim (λ (r : Exit × Cpu × B). IsWellFormed r.1) in
      let (nw, na) = next-IsWord h in
      let rs1 : IsWord (reg c (insn / 2 ^ 15 % 32)) = reg-IsWord c _ h in
      let rs2 : IsWord (reg c (insn / 2 ^ 20 % 32)) = reg-IsWord c _ h in
      let upper : IsWord (bit_and insn 0xfffff000) = omega (arith, bit_and-le insn 0xfffff000) in
      let jalr = align_target _ (add32-IsWord (reg c (insn / 2 ^ 15 % 32)) (imm_i insn)) in
      let jal = align_target _ (add32-IsWord c.pc (imm_j insn)) in
      let branch =
        if_elim (λ t. IsWord t × (t % 4 ≡ 0))
          (branch_taken (f3_of insn) (reg c (insn / 2 ^ 15 % 32)) (reg c (insn / 2 ^ 20 % 32))) _ _
          (align_target _ (add32-IsWord c.pc (imm_b insn))) (next-IsWord h) in
      each (insn % 128 == 0x03) _ _ (retire-IsWellFormed _ _ _ h (load-IsWord _ b _) nw na) (
        each (insn % 128 == 0x0f) _ _ (retire_same _ h nw na) (
          each (insn % 128 == 0x13) _ _
            (retire-IsWellFormed _ _ _ h (op_imm-IsWord insn _ _ rs1 (imm_i-IsWord insn k)) nw na)
            (each (insn % 128 == 0x17) _ _ (retire-IsWellFormed _ _ _ h (add32-IsWord c.pc _) nw na)
              (each (insn % 128 == 0x23) _ _ (retire_same _ h nw na) (
                each (insn % 128 == 0x33) _ _
                  (retire-IsWellFormed _ _ _ h (op-IsWord insn _ _ rs1 rs2) nw na)
                  (each (insn % 128 == 0x37) _ _ (retire-IsWellFormed _ _ _ h upper nw na) (
                    each (insn % 128 == 0x63) _ _ (retire_same _ h branch.0 branch.1) (
                      each (insn % 128 == 0x67) _ _ (retire-IsWellFormed _ _ _ h nw jalr.0 jalr.1) (
                        each (insn % 128 == 0x6f) _ _ (retire-IsWellFormed _ _ _ h nw jal.0 jal.1) (
                          each (insn % 128 == 0x73) _ _ (system-IsWellFormed insn _ _ h rs1)
                            (trap-IsWellFormed 2 (omega arith) h)))))))))))

  -- Whatever the bus answers, a step leaves 32 registers of 32 bits, register 0 zero, an aligned
  -- program counter, and every control register a word.
  pub step-IsWellFormed : {c : Cpu} (b : B) → IsWellFormed c → IsWellFormed (step bus c b).1
  unfolding step
  step-IsWellFormed {c} b h =
      if_elim (λ (r : Exit × Cpu × B). IsWellFormed r.1) (takes_interrupt c) _ _
        (trap-IsWellFormed 0x8000_000b (omega arith) h)
        (execute-IsWellFormed _ _ (counted h) (typed.instruction b c.pc))
