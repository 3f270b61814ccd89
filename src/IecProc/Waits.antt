-- ===== src/IecProc/Waits.antt =====
-- The instructions that wait: what the clock after one leaves.
use ue2_c64u_emulator.Base.{
  ℕ, ◌^◌, ◌<◌, ◌≡◌, refl, ap, ◌∙◌, arith, ◌⊎◌, inl, inr, Bool, true, false, not, ◌&&◌, ◌||◌, ◌==◌,
  ltb, has, bit_and, not32, List, [], ◌∷◌, length,
}
use ue2_c64u_emulator.Base.Bits.{bit_at-bit_and, eq_of_bits, bit_and-le}
use ue2_c64u_emulator.Base.Masks.{bit_or-zero}
use ue2_c64u_emulator.IecProc.State.{
  IecProc, State, get_inst, slow_ram, decode, wait_true, set_data, up_depth,
}
use ue2_c64u_emulator.IecProc.Engine.{
  opcode, operand, databyte, input_vector, selected, push, pop, copy_bit, call, execute,
  decode_inst, strobe, advance, watch_atn, clock, is_blocked, same_state,
}

-- The instructions that wait: a PUSH when the FIFO is full, a POP that may not go on without an entry.
unfoldable stuck_push : IecProc → Bool
stuck_push p =
    ((opcode p.instr == 0x2) || (opcode p.instr == 0x3)) && not (ltb (length p.up) up_depth)

unfoldable stuck_pop : IecProc → Bool
stuck_pop p = (opcode p.instr == 0x1) && (length p.down == 0) && not (has (databyte p.instr) 1)

only_stuck :
    (p : IecProc) (inputs : ℕ)
    → p.state ≡ get_inst
    → (execute p inputs).state ≡ decode
    → (stuck_push p ≡ true) ⊎ (stuck_pop p ≡ true)
unfolding execute push pop copy_bit call set_data stuck_push stuck_pop
only_stuck p inputs e h = ground arith

stuck_push_lem :
    (p : IecProc) (inputs : ℕ)
    → stuck_push p ≡ true
    → execute p inputs ≡ record p { state = decode }
unfolding execute push stuck_push
stuck_push_lem p inputs h = ground arith

-- A waiting POP clears the data register and the flags.
unfoldable cleared : IecProc → IecProc
cleared p = record p {
  ctrl = false;
  out = bit_and (bit_and p.out (not32 0xff)) (not32 0x1000);
  valid = false;
  state = decode;
}

pop_empty : (p : IecProc) → p.down ≡ [] → has (databyte p.instr) 1 ≡ false → pop p ≡ cleared p
unfolding pop set_data cleared
pop_empty p e b = ground (
  arith,
  bit_or-zero (bit_and p.out (not32 0xff)),
  bit_or-zero (bit_and (bit_and p.out (not32 0xff)) (not32 0x1000)),
  none_high,
)
  where
    none_high : has 0 0x100 ≡ false
    none_high = unfold has in refl

stuck_pop_lem : (p : IecProc) (inputs : ℕ) → stuck_pop p ≡ true → execute p inputs ≡ cleared p
unfolding execute stuck_pop
stuck_pop_lem p inputs h = execute_pop ∙ pop_empty p (empty p.down (ground arith)) (ground arith)
  where
    execute_pop : execute p inputs ≡ pop p
    execute_pop = ground arith

    empty : (xs : List ℕ) → (length xs == 0) ≡ true → xs ≡ []
    empty [] e = refl
    empty (x ∷ xs) e = absurd (ground arith)

clear_twice :
    (o : ℕ)
    → bit_and
        (bit_and (bit_and (bit_and o (not32 0xff)) (not32 0x1000)) (not32 0xff))
        (not32 0x1000)
      ≡ bit_and (bit_and o (not32 0xff)) (not32 0x1000)
clear_twice o = eq_of_bits 32 _ _ (below _) (below (bit_and o (not32 0xff))) (λ i h. ground (
  arith,
  bit_at-bit_and i (bit_and (bit_and (bit_and o (not32 0xff)) (not32 0x1000)) (not32 0xff))
      (not32 0x1000),
  bit_at-bit_and i (bit_and (bit_and o (not32 0xff)) (not32 0x1000)) (not32 0xff),
  bit_at-bit_and i (bit_and o (not32 0xff)) (not32 0x1000),
  bit_at-bit_and i o (not32 0xff),
))
  where
    below : (x : ℕ) → bit_and x (not32 0x1000) < 2 ^ 32
    below x = omega (arith, bit_and-le x (not32 0x1000))

-- A waiting instruction that is decoded again.
again_push :
    (q : IecProc) (inputs : ℕ)
    → q.state ≡ decode
    → q.timer_done ≡ false
    → q.timer ≡ operand q.instr
    → stuck_push q ≡ true
    → decode_inst q inputs ≡ q
unfolding decode_inst stuck_push
again_push q inputs s d t h =
    stuck_push_lem (record q { timer_done = false; timer = operand q.instr; state = get_inst })
      inputs (unfold stuck_push in h)
    ∙ ground arith

again_pop :
    (r : IecProc) (inputs : ℕ)
    → r.timer_done ≡ false
    → r.timer ≡ operand r.instr
    → stuck_pop r ≡ true
    → decode_inst (cleared r) inputs ≡ cleared r
unfolding decode_inst cleared stuck_pop
again_pop r inputs d t h =
    stuck_pop_lem
      (record (cleared r) { timer_done = false; timer = operand r.instr; state = get_inst }) inputs
      (unfold stuck_pop in h)
    ∙ ground (arith, clear_twice r.out)

watch_settled : (p : IecProc) (inputs : ℕ) → p.atn_prev ≡ has inputs 4 → watch_atn p inputs ≡ p
unfolding watch_atn
watch_settled p inputs e = ground arith

-- A state in which a clock does nothing but look at ATN, as it did before.
fixed :
    (c : IecProc) (inputs : ℕ)
    → c.atn_prev ≡ has inputs 4
    → advance c inputs ≡ c
    → clock c inputs false ≡ c
unfolding clock strobe
fixed c inputs a e = ap (λ (r : IecProc). watch_atn r inputs) e ∙ watch_settled c inputs a

pub fixed_as :
    (q c : IecProc) (inputs : ℕ) → q ≡ c → clock c inputs false ≡ c → clock q inputs false ≡ q
fixed_as q c inputs e f = rw e f

pub advance-decode :
    (c : IecProc) (inputs : ℕ) → c.state ≡ decode → advance c inputs ≡ decode_inst c inputs
unfolding advance
advance-decode c inputs e = ground arith

-- An instruction that waits is as it was after the next clock.
pub decode_waits :
    (p : IecProc) (inputs : ℕ)
    → (decode_inst p inputs).state ≡ decode
    → let q = record (decode_inst p inputs) { atn_prev = has inputs 4 } in clock q inputs false ≡ q
unfolding decode_inst
decode_waits p inputs h = elim (only_stuck b inputs refl h) [
  | inl full ↦ fixed_as _ pushing inputs (ap with_atn (stuck_push_lem b inputs full)) (
      fixed pushing inputs refl (
        advance-decode pushing inputs refl
        ∙ again_push pushing inputs refl refl refl (unfold stuck_push in full)))
  | inr empty ↦
      fixed_as _ (cleared popping) inputs
        (ap with_atn (stuck_pop_lem b inputs empty) ∙ unfold cleared in refl)
        (fixed (cleared popping) inputs (unfold cleared in refl) (
          advance-decode (cleared popping) inputs (unfold cleared in refl)
          ∙ again_pop popping inputs refl refl (unfold stuck_pop in empty)))
]
  where
    b : IecProc
    b = record p { timer_done = false; timer = operand p.instr; state = get_inst }

    with_atn : IecProc → IecProc
    with_atn r = record r { atn_prev = has inputs 4 }

    pushing : IecProc
    pushing = record b { state = decode; atn_prev = has inputs 4 }

    popping : IecProc
    popping = record b { atn_prev = has inputs 4 }

waiting :
    (p : IecProc) (inputs : ℕ)
    → p.state ≡ wait_true
    → (advance p inputs).state ≡ wait_true
    → (p.timer_done ≡ false) × (selected p inputs ≡ false)
unfolding advance
waiting p inputs e h = ground arith

advance-waiting :
    (p : IecProc) (inputs : ℕ)
    → p.state ≡ wait_true
    → p.timer_done ≡ false
    → selected p inputs ≡ false
    → advance p inputs ≡ p
unfolding advance
advance-waiting p inputs e t s = ground arith

selected_lem :
    (p : IecProc) (inputs : ℕ)
    → selected (record p { atn_prev = has inputs 4 }) inputs ≡ selected p inputs
unfolding selected input_vector
selected_lem p inputs = refl

pub advance-get_inst :
    (p : IecProc) (inputs : ℕ) → p.state ≡ get_inst → (advance p inputs).state ≡ slow_ram
unfolding advance
advance-get_inst p inputs e = ground arith

pub advance-slow_ram :
    (p : IecProc) (inputs : ℕ) → p.state ≡ slow_ram → (advance p inputs).state ≡ decode
unfolding advance
advance-slow_ram p inputs e = ground arith

-- A WAIT whose condition is false.
pub wait_waits :
    (p : IecProc) (inputs : ℕ)
    → p.state ≡ wait_true
    → (advance p inputs).state ≡ wait_true
    → let q = record (advance p inputs) { atn_prev = has inputs 4 } in clock q inputs false ≡ q
wait_waits p inputs e h =
    fixed_as _ q inputs
      (ap (λ (r : IecProc). record r { atn_prev = has inputs 4 })
        (advance-waiting p inputs e w.0 w.1))
      (fixed q inputs refl (advance-waiting q inputs e w.0 (selected_lem p inputs ∙ w.1)))
  where
    q : IecProc
    q = record p { atn_prev = has inputs 4 }

    w : (p.timer_done ≡ false) × (selected p inputs ≡ false)
    w = waiting p inputs e h

pub blocked-state : (p q : IecProc) → is_blocked p q ≡ true → q.state ≡ p.state
unfolding is_blocked
blocked-state p q h = same_state_lem q.state p.state (ground arith)
  where
    same_state_lem : (s t : State) → same_state s t ≡ true → s ≡ t
    same_state_lem get_inst t e = ground arith
    same_state_lem slow_ram t e = ground arith
    same_state_lem decode t e = ground arith
    same_state_lem wait_true t e = ground arith
