-- ===== src/Rv32/Csr.antt =====
-- What a CSR instruction reads back, and the trap entry and return on the status register.
use ue2_c64u_emulator.Base.{
  ℕ, ◌*◌, ◌/◌, ◌%◌, ◌<◌, ◌≡◌, refl, ◌∙◌, arith, bit_and, bit_or, Bool, true, false, ◌&&◌, ◌||◌,
  ◌==◌, if◌then◌else◌, not32, has,
}
use ue2_c64u_emulator.Base.Bits.{bit_at, bit_at-bit_and, bit_at-bit_or}
use ue2_c64u_emulator.Base.Masks.{has_pow, has-bit_or, align_lem, bit_and_mask, bit_and_twice}
use ue2_c64u_emulator.Rv32.State.{
  Cpu, Exit, stepped, csr_read, csr_write, csrs_write, trap, mret, meie, mstatus_mie, mstatus_mpie,
  mstatus_stored, mstatus_addr, mie_addr, mtvec_addr, mscratch_addr, mepc_addr,
}
use ue2_c64u_emulator.Rv32.Bus.{Bus}
use ue2_c64u_emulator.Rv32.Step.{execute, system}

-- The registers that a CSR instruction can write.
abbrev pub is_writable : ℕ → Bool
is_writable addr =
    addr == mstatus_addr
    || addr == mie_addr
    || addr == mtvec_addr
    || addr == mscratch_addr
    || addr == mepc_addr

-- The bits of each that hold what is written.
abbrev pub writable_bits : ℕ → ℕ
writable_bits addr =
    if addr == mstatus_addr
    then mstatus_stored
    else if addr == mie_addr
    then meie
    else if addr == mtvec_addr
    then not32 3
    else not32 0

-- After a write the register reads as the written value on its writable bits, and 0 on the others;
-- every other register, and a register that cannot be written, reads as before.
pub csr_read-csr_write :
    (c : Cpu) (addr val other : ℕ)
    → val < 4294967296
    → csr_read (csr_write c addr val) other ≡ (
        if addr == other && is_writable addr
        then bit_and val (writable_bits addr)
        else csr_read c other)
unfolding csr_read csr_write csrs_write
csr_read-csr_write c addr val other h =
    ground (arith, bit_and_twice val mstatus_stored, bit_and_twice val meie, bit_and_mask 32 val)

mie_outside : bit_at 4294967159 3 ≡ false
unfolding bit_at
mie_outside = refl

mpie_outside : bit_at 4294967159 7 ≡ false
unfolding bit_at
mpie_outside = refl

-- Outside the stored bits, `mstatus` has neither MIE nor MPIE.
has_mie :
    (m p : ℕ) → has (bit_or (bit_and m (not32 mstatus_stored)) p) mstatus_mie ≡ has p mstatus_mie
has_mie m p =
    has_pow 3 _ ∙ simp (bit_at-bit_or, bit_at-bit_and, mie_outside) (ground (arith, has_pow 3 p))

has_mpie :
    (m p : ℕ) → has (bit_or (bit_and m (not32 mstatus_stored)) p) mstatus_mpie ≡ has p mstatus_mpie
has_mpie m p =
    has_pow 7 _ ∙ simp (bit_at-bit_or, bit_at-bit_and, mpie_outside) (ground (arith, has_pow 7 p))

-- Trap entry: interrupts are off, MPIE holds what MIE was, and execution goes on at the vector.
pub trap_lem :
    (c : Cpu) (cause : ℕ)
    → c.csr.mtvec < 4294967296
    → let t = trap c cause in
      (has t.csr.mstatus mstatus_mie ≡ false)
      × (has t.csr.mstatus mstatus_mpie ≡ has c.csr.mstatus mstatus_mie)
      × (t.csr.mepc ≡ c.pc)
      × (t.csr.mcause ≡ cause)
      × (t.pc ≡ c.csr.mtvec / 4 * 4)
      × (t.x ≡ c.x)
unfolding trap
trap_lem c cause h = (
  has_mie c.csr.mstatus _ ∙ mie_off (has c.csr.mstatus mstatus_mie),
  has_mpie c.csr.mstatus _ ∙ mpie_copies (has c.csr.mstatus mstatus_mie),
  refl,
  refl,
  align_lem c.csr.mtvec h,
  refl,
)
  where
    mie_off : (b : Bool) → has (if b then mstatus_mpie else 0) mstatus_mie ≡ false
    mie_off true = unfold has in refl
    mie_off false = unfold has in refl

    mpie_copies : (b : Bool) → has (if b then mstatus_mpie else 0) mstatus_mpie ≡ b
    mpie_copies true = unfold has in refl
    mpie_copies false = unfold has in refl

-- The instruction MRET.
execute-mret :
    {B : Type 0} (bus : Bus B) (d : Cpu) (b : B)
    → ◌≡◌ {A = Exit × Cpu × B} (execute bus d 0x30200073 b) (stepped, mret d, b)
unfolding execute system
execute-mret bus d b = refl

-- `mret` puts MPIE into MIE, sets MPIE, and goes on at the aligned `mepc`.
pub mret_lem :
    (c : Cpu)
    → c.csr.mepc < 4294967296
    → let r = mret c in
      (has r.csr.mstatus mstatus_mie ≡ has c.csr.mstatus mstatus_mpie)
      × (has r.csr.mstatus mstatus_mpie ≡ true)
      × (r.pc ≡ c.csr.mepc / 4 * 4)
      × (r.x ≡ c.x)
unfolding mret
mret_lem c h = (
  has-bit_or 3 (bit_or (bit_and c.csr.mstatus (not32 mstatus_stored)) mstatus_mpie) _
      ∙ rw (has_mie c.csr.mstatus mstatus_mpie) (mie_copies (has c.csr.mstatus mstatus_mpie)),
  has-bit_or 7 (bit_or (bit_and c.csr.mstatus (not32 mstatus_stored)) mstatus_mpie) _
      ∙ rw (has_mpie c.csr.mstatus mstatus_mpie) (unfold has in refl),
  align_lem c.csr.mepc h,
  refl,
)
  where
    mie_copies :
        (b : Bool)
        → (has mstatus_mpie mstatus_mie || has (if b then mstatus_mie else 0) mstatus_mie) ≡ b
    mie_copies true = unfold has in refl
    mie_copies false = unfold has in refl

-- A trap, and then any state of the processor, such as a handler's last, in which `mepc` and MPIE are as the
-- trap left them: the instruction MRET there goes on at the address that trapped, with the interrupt
-- enable from before the trap and MPIE set. It changes neither the registers, nor the other control
-- registers, nor the bus.
pub mret-trap :
    {B : Type 0} (bus : Bus B) (c d : Cpu) (cause : ℕ) (b : B)
    → c.csr.mtvec < 4294967296
    → c.pc < 4294967296
    → c.pc % 4 ≡ 0
    → d.csr.mepc ≡ (trap c cause).csr.mepc
    → has d.csr.mstatus mstatus_mpie ≡ has (trap c cause).csr.mstatus mstatus_mpie
    → let r = execute bus d 0x30200073 b in
      (r.0 ≡ stepped)
      × (r.2 ≡ b)
      × (r.1.pc ≡ c.pc)
      × (has r.1.csr.mstatus mstatus_mie ≡ has c.csr.mstatus mstatus_mie)
      × (has r.1.csr.mstatus mstatus_mpie ≡ true)
      × (r.1.x ≡ d.x)
      × (r.1.csr ≡ record (d.csr) { mstatus = r.1.csr.mstatus })
mret-trap bus c d cause b h k a epc mpie =
    let (off, kept, at, why, vec, same) = trap_lem c cause h in
    let (mie, set, pc, x) = mret_lem d (omega (arith, epc, at, k)) in
    rw (execute-mret bus d b)
      (refl, refl, omega (arith, pc, epc, at, a), mie ∙ mpie ∙ kept, set, x, unfold mret in refl)
