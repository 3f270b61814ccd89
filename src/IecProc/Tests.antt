-- ===== src/IecProc/Tests.antt =====
-- The engine's theorems at concrete programs.
use ue2_c64u_emulator.Base.{ℕ, ◌≡◌, refl, arith, ◌⊎◌, inl, true, false, has, bit_and, [], ◌∷◌, ◌++◌}
use ue2_c64u_emulator.Base.Bits.{bit_at}
use ue2_c64u_emulator.IecProc.State.{IecProc, get_inst, decode}
use ue2_c64u_emulator.IecProc.Engine.{databyte, clock, clocks, strobe, advance, watch_atn}
use ue2_c64u_emulator.IecProc.Registers.{write}
use ue2_c64u_emulator.IecProc.Invariant.{IsValid, reads, writes, runs, acts, acts-IsValid}
use ue2_c64u_emulator.IecProc.Fifos.{pops, pops-write}
use ue2_c64u_emulator.IecProc.EarlyExit.{IsRestarted, all_clocks, clocks_exact}
use ue2_c64u_emulator.IecProc.Restart.{atn_restart}

-- The engine is at address 5 of a program, with the interrupt bit of the status set and ATN released;
-- the instruction is a PUSHC, and one byte waits in each FIFO.
abbrev pushing : IecProc
pushing = record {
  code = λ a. 0x00900000;
  enabled = true;
  pc = 5;
  state = get_inst;
  instr = 0x00200000;
  timer = 7;
  timer_done = false;
  out = 0xf0141;
  valid = true;
  ctrl = false;
  timeout = false;
  stack = 3 ∷ [];
  atn_prev = true;
  up = 0x77 ∷ [];
  down = 0x122 ∷ [];
  flush = false;
  irq_status = false;
  irq_enable = true;
}

-- Everyone else releases every line.
abbrev alone : ℕ → ℕ → ℕ × ℕ
alone s d = (s, d)

pushing-IsValid : IsValid pushing
pushing-IsValid = record {
  pc_fits = omega arith;
  timer_fits = omega arith;
  out_fits = omega arith;
  up_fits = omega arith;
  down_fits = omega arith;
  stack_fits = omega arith;
  returns = (omega arith, tt);
  flushed = inl refl;
}

acts-IsValid_example : IsValid (acts alone (pushing, 0) (writes 8 0x11 ∷ runs 3 ∷ reads 6 ∷ [])).0
acts-IsValid_example =
    acts-IsValid alone (pushing, 0) (writes 8 0x11 ∷ runs 3 ∷ reads 6 ∷ []) pushing-IsValid

irq_on : has (clock pushing 0xb true).out 0x100 ≡ true
unfolding clock strobe advance watch_atn has
irq_on = refl

clocks_exact_example :
    (clocks alone 100 pushing 0 0xf true ≡ all_clocks alone 100 pushing 0 0xf true)
    ⊎ IsRestarted (clocks alone 100 pushing 0 0xf true).0
clocks_exact_example = clocks_exact alone 100 pushing 0 0xf true

atn_restart_example :
    let q = clock pushing 0xb true in
    let r = clock (clock q 0xb false) 0xb false in
    IsRestarted q × (r.state ≡ decode) × (r.instr ≡ bit_and 0x00900000 0x3fffffff) × (r.pc ≡ 2)
atn_restart_example = atn_restart pushing 0xb true 0xb 0xb refl low irq_on low low
  where
    low : has 0xb 4 ≡ false
    low = unfold has in refl

pops-write_example :
    (pops 2 (write pushing 10 0x33)).0 ≡ (pops 1 pushing).0 ++ ((0x33, false, true) ∷ [])
unfolding bit_at
pops-write_example = pops-write pushing 2 0x33 (omega arith) (omega arith) refl (omega arith) taking
  where
    taking : has (databyte 0x00200000) 2 ≡ false
    taking = unfold has in refl
