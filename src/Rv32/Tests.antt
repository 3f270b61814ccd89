-- ===== src/Rv32/Tests.antt =====
-- Runs of the processor on concrete words, and its theorems at concrete states.
use ue2_c64u_emulator.Base.{
  ℕ, ◌+◌, ◌*◌, ◌%◌, ◌<◌, ◌≡◌, refl, arith, Bool, true, false, ◌==◌, if◌then◌else◌, has, inl, Memory,
  store, set, replicate, u32,
}
use ue2_c64u_emulator.Base.Bits.{bit_or-lt}
use ue2_c64u_emulator.Base.Int.{signed32, div_ℤ}
use ue2_c64u_emulator.Rv32.Bus.{Bus, default_bus, read16, read32, write32, fetch}
use ue2_c64u_emulator.Rv32.State.{Cpu, stepped, trap, mcause_mei, mstatus_mie, mstatus_mpie}
use ue2_c64u_emulator.Rv32.Alu.{mul_div, op_imm, imm_i, sra32, add32}
use ue2_c64u_emulator.Rv32.Step.{step, execute, retire, takes_interrupt}
use ue2_c64u_emulator.Rv32.Csr.{mret-trap}
use ue2_c64u_emulator.Rv32.Arith.{signed_div}
use ue2_c64u_emulator.Rv32.Invariant.{IsWellFormed, IsTyped, step-IsWellFormed}
use ue2_c64u_emulator.Rv32.Interrupts.{interrupt_lem}
use ue2_c64u_emulator.Rv32.LoadStore.{IsRam, read32-write32}

-- Memory that holds `addi x5, x5, -3` at address 0.
abbrev program : Memory
program a =
    if a == 0
    then 0x93
    else if a == 1
    then 0x82
    else if a == 2
    then 0xd2
    else if a == 3
    then 0xff
    else 0

abbrev ram_read : Memory → ℕ → ℕ × Memory
ram_read m a = (m a % 256, m)

abbrev ram_write : Memory → ℕ → ℕ → Memory
ram_write m a v = store m a v

abbrev ram_bus : Bus Memory
ram_bus = default_bus ram_read ram_write

half-lt : (m : Memory) (a : ℕ) → (read16 ram_read m a).0 < 65536
unfolding read16
half-lt m a = bit_or-lt 16 (m a % 256) (m (u32 (a + 1)) % 256 * 256) (omega arith) (omega arith)

word-lt : (m : Memory) (a : ℕ) → (read32 ram_read m a).0 < 4294967296
unfolding read32
word-lt m a =
    bit_or-lt 32 (read16 ram_read m a).0 ((read16 ram_read m (u32 (a + 2))).0 * 65536)
      (omega (arith, half-lt m a)) (omega (arith, half-lt m (u32 (a + 2))))

ram-IsTyped : IsTyped ram_bus
ram-IsTyped = record {
  byte = λ m a. omega arith;
  half = half-lt;
  word = word-lt;
  instruction = λ m a. unfold fetch in word-lt m a;
}

memory-IsRam : IsRam ram_read ram_write (λ a. Unit {0})
unfolding store
memory-IsRam = record { quiet = λ m a p. refl; sees = λ m a v a' p q h. ground arith }

-- Interrupts on and pending, the handler at 0x100, x5 holding 7.
abbrev pending_cpu : Cpu
pending_cpu = record {
  x = set (replicate 32 0) 5 7;
  pc = 0;
  csr = record {
    mstatus = 8;
    mie = 2048;
    mtvec = 0x100;
    mscratch = 0;
    mepc = 0;
    mcause = 0;
    mtval = 0;
  };
  meip = true;
  insns = 0;
}

abbrev running_cpu : Cpu
running_cpu = record pending_cpu { meip = false }

running-IsWellFormed : IsWellFormed running_cpu
running-IsWellFormed = omega arith

addi_runs : (step ram_bus running_cpu program).1.x ≡ set (replicate 32 0) 5 4
unfolding step execute retire op_imm imm_i sra32 add32 read16 read32 fetch has
addi_runs = refl

interrupt_runs : (step ram_bus pending_cpu program).1.pc ≡ 0x100
unfolding step trap has
interrupt_runs = refl

step-IsWellFormed_example : IsWellFormed (step ram_bus running_cpu program).1
step-IsWellFormed_example = step-IsWellFormed ram_bus ram-IsTyped program running-IsWellFormed

interrupt_lem_example :
    let t = (step ram_bus pending_cpu program).1 in
    ((step ram_bus pending_cpu program).2 ≡ program)
    × (t.insns ≡ 0)
    × (t.x ≡ pending_cpu.x)
    × (t.pc ≡ 0x100)
    × (t.csr.mepc ≡ 0)
    × (t.csr.mcause ≡ mcause_mei)
    × ((line : Bool) → takes_interrupt (record t { meip = line }) ≡ false)
interrupt_lem_example = interrupt_lem ram_bus pending_cpu program (omega arith) pending
  where
    pending : takes_interrupt pending_cpu ≡ true
    pending = unfold has in refl

-- A handler's last state: it has changed a register, `mscratch` and the cause.
abbrev handled : Cpu
handled =
    let t = trap running_cpu 11 in
    record t { x = set t.x 6 1; pc = 0x140; csr = record (t.csr) { mscratch = 9; mcause = 3 } }

mret-trap_example :
    let r = execute ram_bus handled 0x30200073 program in
    (r.0 ≡ stepped)
    × (r.2 ≡ program)
    × (r.1.pc ≡ 0)
    × (has r.1.csr.mstatus mstatus_mie ≡ has 8 mstatus_mie)
    × (has r.1.csr.mstatus mstatus_mpie ≡ true)
    × (r.1.x ≡ handled.x)
    × (r.1.csr ≡ record (handled.csr) { mstatus = r.1.csr.mstatus })
mret-trap_example =
    mret-trap ram_bus running_cpu handled 11 program (omega arith) (omega arith) refl refl refl

-- -7 / 2 is -3.
signed_div_example : signed32 (mul_div 4 0xfffffff9 2) ≡ div_ℤ (signed32 0xfffffff9) (signed32 2)
signed_div_example =
    signed_div 0xfffffff9 2 (omega arith) (omega arith) (omega arith) (inl (omega arith))

-- The word wraps round the end of the address space.
word_wraps :
    (read32 ram_read (write32 ram_write program 0xfffffffe 0x12345678) 0xfffffffe).0 ≡ 0x12345678
word_wraps =
    read32-write32 memory-IsRam program 0xfffffffe 0x12345678 (omega arith) (omega arith) tt tt tt
      tt
