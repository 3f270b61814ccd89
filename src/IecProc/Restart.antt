-- ===== src/IecProc/Restart.antt =====
-- The restart of the engine when ATN falls.
use ue2_c64u_emulator.Base.{ℕ, ◌+◌, ◌%◌, ◌≡◌, refl, ap, ◌∙◌, arith, Bool, true, false, has, bit_and}
use ue2_c64u_emulator.IecProc.State.{
  IecProc, State, get_inst, slow_ram, decode, wait_true, set_data,
}
use ue2_c64u_emulator.IecProc.Engine.{
  operand, push, pop, copy_bit, call, execute, decode_inst, strobe, advance, watch_atn, clock,
}
use ue2_c64u_emulator.IecProc.Waits.{advance-decode}
use ue2_c64u_emulator.IecProc.EarlyExit.{IsRestarted}

execute-code : (p : IecProc) (inputs : ℕ) → (execute p inputs).code ≡ p.code
unfolding execute push pop copy_bit call set_data
execute-code p inputs = ground arith

advance-code : (p : IecProc) (inputs : ℕ) → (advance p inputs).code ≡ p.code
unfolding advance
advance-code p inputs = by_state p.state refl
  where
    by_state : (s : State) → p.state ≡ s → (advance p inputs).code ≡ p.code
    by_state get_inst e = ground arith
    by_state slow_ram e = ground arith
    by_state decode e =
        ap (λ (t : IecProc). t.code) (advance-decode p inputs e)
        ∙ unfold decode_inst in execute-code _ inputs
    by_state wait_true e = ground arith

clock-code : (p : IecProc) (inputs : ℕ) (tick : Bool) → (clock p inputs tick).code ≡ p.code
unfolding clock watch_atn strobe
clock-code p inputs tick = ground (arith, advance-code (strobe p tick) inputs)

execute-atn_prev : (p : IecProc) (inputs : ℕ) → (execute p inputs).atn_prev ≡ p.atn_prev
unfolding execute push pop copy_bit call set_data
execute-atn_prev p inputs = ground arith

advance-atn_prev : (p : IecProc) (inputs : ℕ) → (advance p inputs).atn_prev ≡ p.atn_prev
unfolding advance decode_inst
advance-atn_prev p inputs = ground (
  arith,
  execute-atn_prev (record p { timer_done = false; timer = operand p.instr; state = get_inst })
      inputs,
)

strobe-atn_prev : (p : IecProc) (tick : Bool) → (strobe p tick).atn_prev ≡ p.atn_prev
unfolding strobe
strobe-atn_prev p tick = ground arith

restarts :
    (p : IecProc) (inputs : ℕ)
    → has inputs 4 ≡ false
    → p.atn_prev ≡ true
    → has (watch_atn p inputs).out 0x100 ≡ true
    → IsRestarted (watch_atn p inputs) × ((watch_atn p inputs).atn_prev ≡ false)
unfolding watch_atn
restarts p inputs low high enabled = ground arith

-- The two clocks after a restart, with ATN still low.
fetches :
    (q : IecProc) (i j : ℕ)
    → q.state ≡ get_inst
    → q.atn_prev ≡ false
    → has i 4 ≡ false
    → has j 4 ≡ false
    → let r = clock (clock q i false) j false in
      (r.state ≡ decode) × (r.instr ≡ bit_and (q.code q.pc) 0x3fffffff) × (r.pc ≡ (q.pc + 1) % 512)
unfolding clock strobe advance watch_atn
fetches q i j s a h k = ground arith

-- When ATN falls while the interrupt bit of the status register is set, the engine drops what it was
-- doing, whatever that was, and what it had left to send; with ATN still low, the instruction at
-- address 1 is decoded two clocks later.
pub atn_restart :
    (p : IecProc) (inputs : ℕ) (tick : Bool) (i j : ℕ)
    → p.atn_prev ≡ true
    → has inputs 4 ≡ false
    → has (clock p inputs tick).out 0x100 ≡ true
    → has i 4 ≡ false
    → has j 4 ≡ false
    → let q = clock p inputs tick in
      let r = clock (clock q i false) j false in
      IsRestarted q × (r.state ≡ decode) × (r.instr ≡ bit_and (p.code 1) 0x3fffffff) × (r.pc ≡ 2)
atn_restart p inputs tick i j high low enabled h k = (
  restarted.0,
  next.0,
  next.1 ∙ ap (λ (w : ℕ). bit_and w 0x3fffffff) first,
  next.2 ∙ ap (λ (a : ℕ). (a + 1) % 512) restarted.0.at_one,
)
  where
    q : IecProc
    q = clock p inputs tick

    restarted : IsRestarted q × (q.atn_prev ≡ false)
    restarted =
        unfold clock in
        restarts (advance (strobe p tick) inputs) inputs low
          (advance-atn_prev (strobe p tick) inputs ∙ strobe-atn_prev p tick ∙ high)
          (unfold clock in enabled)

    next :
        let r = clock (clock q i false) j false in
        (r.state ≡ decode)
        × (r.instr ≡ bit_and (q.code q.pc) 0x3fffffff)
        × (r.pc ≡ (q.pc + 1) % 512)
    next = fetches q i j restarted.0.fetching restarted.1 h k

    first : q.code q.pc ≡ p.code 1
    first = ap q.code restarted.0.at_one ∙ ap (λ (m : ℕ → ℕ). m 1) (clock-code p inputs tick)
