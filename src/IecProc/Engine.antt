-- ===== src/IecProc/Engine.antt =====
-- One clock of the engine, and a microsecond of clocks.
use ue2_c64u_emulator.Base.{
  ℕ, zero, suc, ◌+◌, ◌-◌, ◌*◌, ◌/◌, ◌%◌, ◌^◌, bit_and, bit_or, Bool, true, false, not, ◌&&◌, ◌||◌,
  ◌==◌, ltb, leb, bool_eq, if◌then◌else◌, from_bool, has, u8, u16, not32, [], ◌∷◌, ◌++◌, length,
  rest, get_or,
}
use ue2_c64u_emulator.IecProc.State.{
  IecProc, State, get_inst, slow_ram, decode, wait_true, drivers, set_data, code_words, up_depth,
  up_afull, stack_depth, sys_per_us,
}

abbrev pub opcode : ℕ → ℕ
opcode i = bit_and (i / 1048576) 0xf

abbrev pub operand : ℕ → ℕ
operand i = u16 (bit_and (i / 256) 0xfff)

abbrev pub databyte : ℕ → ℕ
databyte i = u8 (bit_and i 0xff)

-- `input_vector`: what an instruction can test.
unfoldable pub input_vector : IecProc → ℕ → ℕ
input_vector p inputs =
    let mask = u8 (bit_and (p.instr / 16) 0xf) in
    let value = u8 (bit_and p.instr 0xf) in
    bit_or
      (bit_or
        (bit_or
          (bit_or
            (bit_or
              (bit_or
                (bit_or (bit_or (2 ^ 31) (from_bool p.ctrl * 2 ^ 29)) (from_bool p.valid * 2 ^ 28))
                (from_bool p.timeout * 2 ^ 27))
              (from_bool (leb up_afull (length p.up)) * 2 ^ 26))
            (from_bool (bit_and inputs mask == value) * 2 ^ 25))
          (from_bool (bit_and p.out 0xff == bit_and p.instr 0xff) * 2 ^ 24))
        (bit_and inputs 0xf * 2 ^ 20))
      (bit_and p.out 0xfffff)

unfoldable pub selected : IecProc → ℕ → Bool
selected p inputs = not (
    bool_eq (has (input_vector p inputs / 2 ^ bit_and (p.instr / 2 ^ 24) 0x1f) 1)
      (has (p.instr / 2 ^ 29) 1))

-- PUSHC and PUSHD: the data register into the FIFO to the firmware, or the same instruction again.
unfoldable pub push : IecProc → IecProc
push p =
    let ctrl = from_bool (opcode p.instr == 0x2) * 256 in
    if ltb (length p.up) up_depth
    then record p { up = p.up ++ (bit_or ctrl (u16 (bit_and p.out 0xff)) ∷ []) }
    else record p { state = decode }

-- POP: the head of the FIFO from the firmware into the data register and the flags; bit 1 of the
-- instruction leaves it there, bit 0 goes on when there is none.
unfoldable pub pop : IecProc → IecProc
pop p =
    let h = get_or p.down 0 0 in
    let some = not (length p.down == 0) in
    let q = set_data p (u8 h) in
    record q {
      ctrl = has h 0x100;
      out = bit_or (bit_and q.out (not32 (2 ^ 12))) (bit_and (h / 512) 1 * 2 ^ 12);
      valid = some;
      down = if some && not (has (databyte p.instr) 2) then rest p.down else p.down;
      state = if not some && not (has (databyte p.instr) 1) then decode else p.state;
    }

unfoldable pub copy_bit : IecProc → ℕ → IecProc
copy_bit p inputs =
    let bit = bit_and (databyte p.instr) 0x1f in
    if ltb bit 20
    then record p {
      out = bit_or (bit_and p.out (not32 (2 ^ bit))) (from_bool (selected p inputs) * 2 ^ bit);
    }
    else p

-- SUB: a full stack loses the return address.
unfoldable pub call : IecProc → IecProc
call p = record p {
  stack = if ltb (length p.stack) stack_depth then p.pc ∷ p.stack else p.stack;
  pc = operand p.instr % code_words;
}

-- What an instruction does once the timer is set and the next fetch is due.
unfoldable pub execute : IecProc → ℕ → IecProc
execute p inputs =
    let o = opcode p.instr in
    if o == 0x0
    then set_data p (databyte p.instr)
    else if o == 0xd
    then record p { out = bit_or (bit_and p.out (not32 0xff00)) 0x0100 }
    else if o == 0xe
    then record p { out = bit_or p.out (0xf * 65536) }
    else if o == 0x6
    then record p { irq_status = true }
    else if o == 0x2 || o == 0x3
    then push p
    else if o == 0x1
    then pop p
    else if o == 0x5
    then copy_bit p inputs
    else if o == 0x8
    then (if selected p inputs then record p { pc = operand p.instr % code_words } else p)
    else if o == 0xc
    then record p { timeout = false; state = wait_true }
    else if o == 0x4
    then call p
    else if o == 0x7
    then record p { pc = get_or p.stack 0 0; stack = rest p.stack }
    else if o == 0x9
    then record p { stack = [] }
    else p

unfoldable pub decode_inst : IecProc → ℕ → IecProc
decode_inst p inputs =
    execute (record p { timer_done = false; timer = operand p.instr; state = get_inst }) inputs

-- The 1 MHz strobe.
unfoldable pub strobe : IecProc → Bool → IecProc
strobe p tick =
    if tick
    then record p { timer_done = p.timer_done || (p.timer == 1); timer = p.timer - 1 }
    else p

unfoldable pub advance : IecProc → ℕ → IecProc
advance p inputs = elim (p.state) [
  | get_inst ↦ record p {
    instr = bit_and (p.code p.pc) 0x3fffffff;
    pc = (p.pc + 1) % code_words;
    state = slow_ram;
  }
  | slow_ram ↦ record p { state = decode }
  | decode ↦ decode_inst p inputs
  | wait_true ↦
      if p.timer_done
      then record p { state = get_inst; timeout = true }
      else if selected p inputs
      then record p { state = get_inst }
      else p
]

-- A falling edge of ATN, with the interrupt bit of the status register set, restarts the engine.
unfoldable pub watch_atn : IecProc → ℕ → IecProc
watch_atn p inputs =
    let atn = has inputs 4 in
    if not atn && p.atn_prev && has p.out 0x100
    then record p { flush = true; down = []; pc = 1; state = get_inst; atn_prev = atn }
    else record p { atn_prev = atn }

unfoldable pub clock : IecProc → ℕ → Bool → IecProc
clock p inputs tick = watch_atn (advance (strobe p tick) inputs) inputs

abbrev pub same_state : State → State → Bool
same_state get_inst get_inst = true
same_state slow_ram slow_ram = true
same_state decode decode = true
same_state wait_true wait_true = true
same_state _ _ = false

-- `(self.pc, self.state, self.timer) == (before.0, before.1, before.3)`
unfoldable pub is_blocked : IecProc → IecProc → Bool
is_blocked p q = (q.pc == p.pc) && same_state q.state p.state && (q.timer == p.timer)

module _ {S : Type 0} (bus : S → ℕ → S × ℕ) where
  -- The clocks left of a microsecond, with the lines as last asked for. The bus is asked again when
  -- the drivers change.
  unfoldable pub clocks : ℕ → IecProc → S → ℕ → Bool → IecProc × S
  clocks zero p s inputs tick = (p, s)
  clocks (suc n) p s inputs tick =
      let q = clock p inputs tick in
      let asked = bus s (drivers q) in
      let moved = clocks n q asked.0 asked.1 false in
      let on = clocks n q s inputs false in
      if not (drivers q == drivers p) then moved else if is_blocked p q then (q, s) else on

  unfoldable pub run_us : ℕ → IecProc → S → IecProc × S
  run_us zero p s = (p, s)
  run_us (suc us) p s =
      let asked = bus s (drivers p) in
      let r = clocks sys_per_us p asked.0 asked.1 true in
      let on = run_us us r.0 r.1 in if not p.enabled then (p, s) else on
