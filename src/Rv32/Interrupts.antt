-- ===== src/Rv32/Interrupts.antt =====
-- When a step is an interrupt, and that a handler is not interrupted before it enables interrupts.
use ue2_c64u_emulator.Base.{
  ℕ, ◌/◌, ◌%◌, ◌*◌, ◌<◌, ◌≡◌, ◌≢◌, ◌↔◌, refl, arith, Bool, true, false, ◌&&◌, ◌==◌, has, if_elim,
  Bool-cases, inl, inr,
}
use ue2_c64u_emulator.Rv32.Bus.{Bus}
use ue2_c64u_emulator.Rv32.State.{Cpu, Exit, stepped, interrupt, trap, meie, mcause_mei}
use ue2_c64u_emulator.Rv32.Csr.{trap_lem}
use ue2_c64u_emulator.Rv32.Step.{takes_interrupt, system, execute, step}

abbrev Runs : Exit → Type 0
Runs e = e ≢ interrupt

stepped-Runs : Runs stepped
stepped-Runs h = cc

system-Runs : (c : Cpu) (insn rd rs1 : ℕ) → Runs (system c insn rd rs1).0
unfolding system
system-Runs c insn rd rs1 = ground arith

module _ {B : Type 0} (bus : Bus B) where
  execute-Runs : (c : Cpu) (insn : ℕ) (b : B) → Runs (execute bus c insn b).0
  unfolding execute
  execute-Runs c insn b =
      let each = if_elim (λ (r : Exit × Cpu × B). Runs r.0) in
      each (insn % 128 == 0x03) _ _ stepped-Runs (
        each (insn % 128 == 0x0f) _ _ stepped-Runs (
          each (insn % 128 == 0x13) _ _ stepped-Runs (
            each (insn % 128 == 0x17) _ _ stepped-Runs (
              each (insn % 128 == 0x23) _ _ stepped-Runs (
                each (insn % 128 == 0x33) _ _ stepped-Runs (
                  each (insn % 128 == 0x37) _ _ stepped-Runs (
                    each (insn % 128 == 0x63) _ _ stepped-Runs (
                      each (insn % 128 == 0x67) _ _ stepped-Runs (
                        each (insn % 128 == 0x6f) _ _ stepped-Runs (
                          each (insn % 128 == 0x73) _ _ (system-Runs c insn _ _) (λ h. cc)))))))))))

  -- A step takes an interrupt exactly when the line is up, MEIE is set and MIE is set.
  pub step_interrupt_iff :
      (c : Cpu) (b : B) → ((step bus c b).0 ≡ interrupt) ↔ (takes_interrupt c ≡ true)
  unfolding step
  step_interrupt_iff c b = elim (Bool-cases (takes_interrupt c)) [
    | inl on ↦ ((λ h. on), λ h. rw on)
    | inr off ↦ ((λ h. absurd (execute-Runs _ _ _ (rw off at h))), λ h. cc)
  ]

  -- A step that takes an interrupt runs no instruction, leaves the bus and the registers alone, and
  -- enters the handler at the vector with the interrupted address in `mepc`. The step after it is no
  -- interrupt, whatever the line does meanwhile.
  pub interrupt_lem :
      (c : Cpu) (b : B)
      → c.csr.mtvec < 4294967296
      → takes_interrupt c ≡ true
      → let t = (step bus c b).1 in
        ((step bus c b).2 ≡ b)
        × (t.insns ≡ c.insns)
        × (t.x ≡ c.x)
        × (t.pc ≡ c.csr.mtvec / 4 * 4)
        × (t.csr.mepc ≡ c.pc)
        × (t.csr.mcause ≡ mcause_mei)
        × ((line : Bool) → takes_interrupt (record t { meip = line }) ≡ false)
  unfolding step
  interrupt_lem c b h on =
      let (off, kept, epc, cause, pc, x) = trap_lem c mcause_mei h in
      rw on (
        refl,
        unfold trap in refl,
        x,
        pc,
        epc,
        cause,
        λ line. masked line (has (trap c mcause_mei).csr.mie meie) off,
      )
    where
      masked : (line p : Bool) {q : Bool} → q ≡ false → (line && p && q) ≡ false
      masked line p e = ground arith
