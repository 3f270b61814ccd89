-- ===== src/Rv32/State.antt =====
-- The processor's state, its control and status registers, and the entry to and the return from a
-- trap.
use ue2_c64u_emulator.Base.{
  ℕ, bit_and, bit_or, Bool, false, if◌then◌else◌, ◌==◌, ◌&&◌, not32, has, List, replicate,
}

abbrev pub mstatus_addr : ℕ
mstatus_addr = 0x300

abbrev pub misa_addr : ℕ
misa_addr = 0x301

abbrev pub mie_addr : ℕ
mie_addr = 0x304

abbrev pub mtvec_addr : ℕ
mtvec_addr = 0x305

abbrev pub mscratch_addr : ℕ
mscratch_addr = 0x340

abbrev pub mepc_addr : ℕ
mepc_addr = 0x341

abbrev pub mcause_addr : ℕ
mcause_addr = 0x342

abbrev pub mip_addr : ℕ
mip_addr = 0x344

abbrev pub marchid_addr : ℕ
marchid_addr = 0xf12

abbrev pub mimpid_addr : ℕ
mimpid_addr = 0xf13

abbrev pub mstatus_mie : ℕ
mstatus_mie = 8

abbrev pub mstatus_mpie : ℕ
mstatus_mpie = 128

-- `MIE_MEIE` and `MIP_MEIP`
abbrev pub meie : ℕ
meie = 2048

abbrev pub mcause_mei : ℕ
mcause_mei = 0x8000_000b

abbrev pub mcause_ecall_m : ℕ
mcause_ecall_m = 11

abbrev pub mcause_breakpoint : ℕ
mcause_breakpoint = 3

abbrev pub mcause_illegal : ℕ
mcause_illegal = 2

-- `MSTATUS_STORED`
abbrev pub mstatus_stored : ℕ
mstatus_stored = 136

pub record Csrs : Type 0 where
  pub mstatus : ℕ
  pub mie : ℕ
  pub mtvec : ℕ
  pub mscratch : ℕ
  pub mepc : ℕ
  pub mcause : ℕ
  pub mtval : ℕ

pub record Cpu : Type 0 where
  pub x : List ℕ
  pub pc : ℕ
  pub csr : Csrs
  pub meip : Bool
  pub insns : ℕ

pub data Exit : Type 0 where
  stepped : Exit
  interrupt : Exit
  wfi : Exit
  ebreak : Exit
  illegal : ℕ → Exit

-- `Cpu::new`, and what `reset` assigns.
unfoldable pub new_cpu : ℕ → Cpu
new_cpu entry = record {
  x = replicate 32 0;
  pc = entry;
  csr = record { mstatus = 0; mie = 0; mtvec = 0; mscratch = 0; mepc = 0; mcause = 0; mtval = 0 };
  meip = false;
  insns = 0;
}

unfoldable pub csr_read : Cpu → ℕ → ℕ
csr_read c addr =
    if addr == mstatus_addr
    then bit_and c.csr.mstatus mstatus_stored
    else if addr == misa_addr
    then 0x4000_0100
    else if addr == mie_addr
    then bit_and c.csr.mie meie
    else if addr == mtvec_addr
    then c.csr.mtvec
    else if addr == mscratch_addr
    then c.csr.mscratch
    else if addr == mepc_addr
    then c.csr.mepc
    else if addr == mcause_addr
    then c.csr.mcause
    else if addr == mip_addr && c.meip
    then meie
    else if addr == marchid_addr
    then 0x13
    else if addr == mimpid_addr
    then 0x475a_0001
    else 0

-- The registers after a CSR instruction's write.
unfoldable pub csrs_write : Csrs → ℕ → ℕ → Csrs
csrs_write r addr val =
    if addr == mstatus_addr
    then record r { mstatus = bit_and val mstatus_stored }
    else if addr == mie_addr
    then record r { mie = bit_and val meie }
    else if addr == mtvec_addr
    then record r { mtvec = bit_and val (not32 3) }
    else if addr == mscratch_addr
    then record r { mscratch = val }
    else if addr == mepc_addr
    then record r { mepc = val }
    else r

unfoldable pub csr_write : Cpu → ℕ → ℕ → Cpu
csr_write c addr val = record c { csr = csrs_write c.csr addr val }

unfoldable pub trap : Cpu → ℕ → Cpu
trap c cause =
    let mpie : ℕ = if has c.csr.mstatus mstatus_mie then mstatus_mpie else 0 in
    record c {
      csr = record (c.csr) {
        mstatus = bit_or (bit_and c.csr.mstatus (not32 mstatus_stored)) mpie;
        mepc = c.pc;
        mcause = cause;
      };
      pc = bit_and c.csr.mtvec (not32 3);
    }

unfoldable pub mret : Cpu → Cpu
mret c =
    let mie : ℕ = if has c.csr.mstatus mstatus_mpie then mstatus_mie else 0 in
    record c {
      csr = record (c.csr) {
        mstatus = bit_or (bit_or (bit_and c.csr.mstatus (not32 mstatus_stored)) mstatus_mpie) mie;
      };
      pc = bit_and c.csr.mepc (not32 3);
    }
