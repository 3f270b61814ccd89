-- ===== src/IecProc/Invariant.antt =====
-- What every access of the firmware and every clock of the engine keep: the program counter within the
-- code, the FIFOs and the stack within their depths, the widths, and no entry to send while flushing.
use ue2_c64u_emulator.Base.{
  ℕ, zero, suc, ◌*◌, ◌/◌, ◌^◌, ◌≤◌, ◌<◌, ◌≡◌, refl, arith, ◌⊎◌, inl, inr, Bool, true, false, not,
  ◌||◌, ◌==◌, ltb, if_elim, from_bool, bit_and, bit_or, u8, u16, not32, List, [], ◌∷◌, length,
  length-append, length-rest, rest, get_or, All, All-get_or, Bool-cases,
}
use native.Mathlib.Nat.{pow-le-pow_right}
use ue2_c64u_emulator.Base.Bits.{bit_and-le, bit_and-le_left, bit_or-lt}
use ue2_c64u_emulator.IecProc.State.{
  IecProc, State, get_inst, slow_ram, decode, wait_true, reset, drivers, set_data, sys_per_us,
}
use ue2_c64u_emulator.IecProc.Engine.{
  opcode, databyte, selected, push, pop, copy_bit, call, execute, decode_inst, strobe, advance,
  watch_atn, clock, clocks, run_us, is_blocked,
}
use ue2_c64u_emulator.IecProc.Registers.{read, write_code, write_register, write}

pub record IsValid (p : IecProc) : Type 0 where
  pub pc_fits : p.pc < 512
  pub timer_fits : p.timer < 4096
  pub out_fits : p.out < 1048576
  pub up_fits : length p.up ≤ 2048
  pub down_fits : length p.down ≤ 15
  pub stack_fits : length p.stack ≤ 15
  pub returns : All (λ a. a < 512) p.stack
  pub flushed : (p.flush ≡ false) ⊎ (length p.down ≡ 0)

All-rest : (P : ℕ → Type 0) (xs : List ℕ) → All P xs → All P (rest xs)
All-rest P [] h = h
All-rest P (x ∷ xs) h = h.1

-- A field of the output replaced.
out-lt : (out mask v : ℕ) → out < 1048576 → v < 1048576 → bit_or (bit_and out mask) v < 1048576
out-lt out mask v h k =
    bit_or-lt 20 (bit_and out mask) v (omega (arith, bit_and-le_left out mask)) k

set_data-lt : (p : IecProc) (v : ℕ) → p.out < 1048576 → v < 256 → (set_data p v).out < 1048576
unfolding set_data
set_data-lt p v h k = out-lt p.out (not32 0xff) v h (omega arith)

set_data-IsValid : {p : IecProc} (v : ℕ) → v < 256 → IsValid p → IsValid (set_data p v)
unfolding set_data
set_data-IsValid {p} v k h = ground (arith, out-lt p.out (not32 0xff) v h.out_fits (omega arith))

push-IsValid : {p : IecProc} → IsValid p → IsValid (push p)
unfolding push
push-IsValid {p} h = ground (
  arith,
  length-append p.up
      (bit_or (from_bool (opcode p.instr == 0x2) * 256) (u16 (bit_and p.out 0xff)) ∷ []),
)

pop-IsValid : {p : IecProc} → IsValid p → IsValid (pop p)
unfolding pop set_data
pop-IsValid {p} h = ground (
  arith,
  length-rest p.down,
  out-lt (bit_or (bit_and p.out (not32 0xff)) (u8 (get_or p.down 0 0))) (not32 4096)
      (bit_and (get_or p.down 0 0 / 512) 1 * 4096)
      (out-lt p.out (not32 0xff) (u8 (get_or p.down 0 0)) h.out_fits (omega arith))
      (omega (arith, bit_and-le (get_or p.down 0 0 / 512) 1)),
)

-- A bit below 20 of a truth value.
bit-lt : (k : ℕ) (t : Bool) → k < 20 → from_bool t * 2 ^ k < 1048576
bit-lt k false h = omega arith
bit-lt k true h =
    omega (arith, pow-le-pow_right {n = 2} (omega arith) {i = k} {j = 19} (omega arith))

copy_bit-IsValid : {p : IecProc} (inputs : ℕ) → IsValid p → IsValid (copy_bit p inputs)
unfolding copy_bit
copy_bit-IsValid {p} inputs h = elim (Bool-cases (ltb bit 20)) [
  | inl small ↦ ground (
    arith,
    out-lt p.out (not32 (2 ^ bit)) _ h.out_fits (bit-lt bit (selected p inputs) (ground arith)),
  )
  | inr large ↦ ground arith
]
  where
    bit : ℕ
    bit = bit_and (databyte p.instr) 0x1f

call-IsValid : {p : IecProc} → IsValid p → IsValid (call p)
unfolding call
call-IsValid {p} h = ground arith

execute-IsValid : {p : IecProc} (inputs : ℕ) → IsValid p → IsValid (execute p inputs)
unfolding execute
execute-IsValid {p} inputs h =
    if_elim IsValid (o == 0x0) _ _ (set_data-IsValid (databyte p.instr) (omega arith) h) (
      if_elim IsValid (o == 0xd) _ _
        (ground (arith, out-lt p.out (not32 0xff00) 0x100 h.out_fits (omega arith)))
        (if_elim IsValid (o == 0xe) _ _
          (ground (arith, bit_or-lt 20 p.out 983040 h.out_fits (omega arith)))
          (if_elim IsValid (o == 0x6) _ _ (ground arith) (
            if_elim IsValid ((o == 0x2) || (o == 0x3)) _ _ (push-IsValid h) (
              if_elim IsValid (o == 0x1) _ _ (pop-IsValid h) (
                if_elim IsValid (o == 0x5) _ _ (copy_bit-IsValid inputs h) (
                  if_elim IsValid (o == 0x8) _ _
                    (if_elim IsValid (selected p inputs) _ _ (ground arith) h)
                    (if_elim IsValid (o == 0xc) _ _ (ground arith) (
                      if_elim IsValid (o == 0x4) _ _ (call-IsValid h) (
                        if_elim IsValid (o == 0x7) _ _
                          (ret_lem (All-get_or (λ a. a < 512) p.stack 0 0 h.returns (omega arith))
                            (All-rest (λ a. a < 512) p.stack h.returns))
                          (if_elim IsValid (o == 0x9) _ _ (ground arith) h)))))))))))
  where
    o : ℕ
    o = opcode p.instr

    ret_lem :
        get_or p.stack 0 0 < 512
        → All (λ a. a < 512) (rest p.stack)
        → IsValid (record p { pc = get_or p.stack 0 0; stack = rest p.stack })
    ret_lem a b = ground (arith, length-rest p.stack)

decode_inst-IsValid : {p : IecProc} (inputs : ℕ) → IsValid p → IsValid (decode_inst p inputs)
unfolding decode_inst
decode_inst-IsValid {p} inputs h =
    execute-IsValid inputs (ground (arith, bit_and-le (p.instr / 256) 0xfff))

strobe-IsValid : {p : IecProc} (tick : Bool) → IsValid p → IsValid (strobe p tick)
unfolding strobe
strobe-IsValid tick h = ground arith

advance-IsValid : {p : IecProc} (inputs : ℕ) → IsValid p → IsValid (advance p inputs)
unfolding advance
advance-IsValid {p} inputs h = by_state p.state refl
  where
    by_state : (s : State) → p.state ≡ s → IsValid (advance p inputs)
    by_state get_inst e = rw (e, advance) (ground arith)
    by_state slow_ram e = rw (e, advance) (ground arith)
    by_state decode e = rw (e, advance) (decode_inst-IsValid inputs h)
    by_state wait_true e = ground arith

watch_atn-IsValid : {p : IecProc} (inputs : ℕ) → IsValid p → IsValid (watch_atn p inputs)
unfolding watch_atn
watch_atn-IsValid inputs h = ground arith

-- A clock keeps the engine's bounds, whatever the lines.
pub clock-IsValid :
    {p : IecProc} (inputs : ℕ) (tick : Bool) → IsValid p → IsValid (clock p inputs tick)
unfolding clock
clock-IsValid inputs tick h =
    watch_atn-IsValid inputs (advance-IsValid inputs (strobe-IsValid tick h))

module _ {S : Type 0} (bus : S → ℕ → S × ℕ) where
  clocks-IsValid :
      (n : ℕ) {p : IecProc} (s : S) (inputs : ℕ) (tick : Bool)
      → IsValid p
      → IsValid (clocks bus n p s inputs tick).0
  unfolding clocks
  clocks-IsValid zero s inputs tick h = h
  clocks-IsValid (suc n) {p = p} s inputs tick h =
      if_elim (λ (r : IecProc × S). IsValid r.0) (not (drivers q == drivers p)) _ _
        (clocks-IsValid n _ _ false valid)
        (if_elim (λ (r : IecProc × S). IsValid r.0) (is_blocked p q) _ _ valid
          (clocks-IsValid n s inputs false valid))
    where
      q : IecProc
      q = clock p inputs tick

      valid : IsValid q
      valid = clock-IsValid inputs tick h

  run_us-IsValid : (us : ℕ) {p : IecProc} (s : S) → IsValid p → IsValid (run_us bus us p s).0
  unfolding run_us
  run_us-IsValid zero s h = h
  run_us-IsValid (suc us) {p = p} s h =
      if_elim (λ (r : IecProc × S). IsValid r.0) (not p.enabled) _ _ h
        (run_us-IsValid us _ (clocks-IsValid sys_per_us s1 inputs true h))
    where
      s1 : S
      s1 = (bus s (drivers p)).0

      inputs : ℕ
      inputs = (bus s (drivers p)).1

-- No access of the firmware leaves the bounds that the engine keeps.
pub write-IsValid : {p : IecProc} (off val : ℕ) → IsValid p → IsValid (write p off val)
unfolding write write_code write_register reset
write-IsValid {p} off val h =
    ground (arith, length-append p.down (bit_or (bit_and off 3 * 256) val ∷ []))

pub read-IsValid : {p : IecProc} (off : ℕ) → IsValid p → IsValid (read p off).1
unfolding read
read-IsValid {p} off h = ground (arith, length-rest p.up)

-- What happens to the engine: accesses of the firmware, and time.
pub data Action : Type 0 where
  reads : ℕ → Action
  writes : ℕ → ℕ → Action
  runs : ℕ → Action

module _ {S : Type 0} (bus : S → ℕ → S × ℕ) where
  unfoldable pub act : IecProc × S → Action → IecProc × S
  act (p, s) (reads off) = ((read p off).1, s)
  act (p, s) (writes off val) = (write p off val, s)
  act (p, s) (runs us) = run_us bus us p s

  unfoldable pub acts : IecProc × S → List Action → IecProc × S
  acts e [] = e
  acts e (a ∷ more) = acts (act e a) more

  act-IsValid : (e : IecProc × S) (a : Action) → IsValid e.0 → IsValid (act e a).0
  unfolding act
  act-IsValid (p, s) (reads off) h = read-IsValid off h
  act-IsValid (p, s) (writes off val) h = write-IsValid off val h
  act-IsValid (p, s) (runs us) h = run_us-IsValid bus us s h

  -- However the firmware's accesses and the engine's running alternate, and whatever the bus answers,
  -- the program counter stays within the code, the timer within 12 bits, the output within 20, both
  -- FIFOs and the return stack within their depths, the return addresses within the code, and the
  -- FIFO to the engine empty while it is flushed.
  pub acts-IsValid : (e : IecProc × S) (xs : List Action) → IsValid e.0 → IsValid (acts e xs).0
  unfolding acts
  acts-IsValid e [] h = h
  acts-IsValid e (a ∷ more) h = acts-IsValid (act e a) more (act-IsValid e a h)
