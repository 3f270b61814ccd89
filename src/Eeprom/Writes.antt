-- ===== src/Eeprom/Writes.antt =====
-- What the microwire side writes: nothing while writing is disabled, and the fill of WRALL and ERAL.
use ue2_c64u_emulator.Base.{
  ℕ, zero, suc, ◌+◌, ◌/◌, ◌%◌, ◌<◌, ◌≡◌, refl, ap, ◌∙◌, arith, Bool, true, false, not, ◌&&◌, ◌==◌,
  if◌then◌else◌, has, store, Bool-cases, inl, inr, ◌⊎◌, ltb,
}
use ue2_c64u_emulator.Base.Bits.{bit_at}
use ue2_c64u_emulator.Base.Masks.{has_pow}
use ue2_c64u_emulator.Eeprom.{
  Eeprom, State, idle, selected, instruction, decode, collect_data, wait_deselect, execute, error,
  fill, write2, reading, load_byte, commit, start_command, run_command, transition, step, is_busy,
  is_settled, settle_for, settle, set_pins,
}

-- No write can come before the next pin change.
abbrev Unarmed : Eeprom → Type 0
Unarmed e = (e.write_enable ≡ false) ⊎ ((e.state ≡ idle) ⊎ (e.state ≡ selected))

module _ (e : Eeprom) where
  quiet_step :
      (s : State)
      → e.state ≡ s
      → Unarmed e
      → ((step e false).mem ≡ e.mem) × ((step e false).dirty ≡ e.dirty) × Unarmed (step e false)
  unfolding step load_byte transition start_command run_command commit
  quiet_step idle q u = ground arith
  quiet_step selected q u = ground arith
  quiet_step instruction q u = ground arith
  quiet_step decode q u = ground arith
  quiet_step collect_data q u = ground arith
  quiet_step wait_deselect q u = ground arith
  quiet_step execute q u = ground arith
  quiet_step error q u = ground arith
  quiet_step fill q u = ground arith
  quiet_step write2 q u = ground arith
  quiet_step reading q u = ground arith

  disabled_step :
      (rising : Bool) (s : State)
      → e.state ≡ s
      → e.write_enable ≡ false
      → ((step e rising).mem ≡ e.mem) × ((step e rising).dirty ≡ e.dirty) × Unarmed (step e rising)
  unfolding step load_byte transition start_command run_command commit
  disabled_step r idle q u = ground arith
  disabled_step r selected q u = ground arith
  disabled_step r instruction q u = ground arith
  disabled_step r decode q u = ground arith
  disabled_step r collect_data q u = ground arith
  disabled_step r wait_deselect q u = ground arith
  disabled_step r execute q u = ground arith
  disabled_step r error q u = ground arith
  disabled_step r fill q u = ground arith
  disabled_step r write2 q u = ground arith
  disabled_step r reading q u = ground arith

quiet_settle :
    (fuel : ℕ) (e : Eeprom)
    → Unarmed e
    → ((settle_for fuel e).mem ≡ e.mem) × ((settle_for fuel e).dirty ≡ e.dirty)
unfolding settle_for
quiet_settle zero e u = (refl, refl)
quiet_settle (suc fuel) e u = elim (Bool-cases (is_settled e.state (step e false))) [
  | inl done ↦ let (m, d, k) = quiet_step e e.state refl u in rw (done, settle_for) (m, d)
  | inr more ↦
      let (m, d, k) = quiet_step e e.state refl u in
      let (m', d') = quiet_settle fuel (step e false) k in rw (more, settle_for) (m' ∙ m, d' ∙ d)
]

-- While writing is disabled no change of the pins changes the memory or marks it dirty: a command,
-- also the one that enables writing, ends before anything is written.
pub set_pins_disabled :
    (e : Eeprom) (sel clk din : Bool)
    → e.write_enable ≡ false
    → ((set_pins e sel clk din).mem ≡ e.mem) × ((set_pins e sel clk din).dirty ≡ e.dirty)
unfolding set_pins settle
set_pins_disabled e sel clk din h = ground (
  arith,
  disabled_step moved (clk && not e.clk) e.state refl h,
  quiet_settle 8192 (step moved (clk && not e.clk)),
)
  where
    moved : Eeprom
    moved = record e { sel = sel; clk = clk; din = din }

-- What a fill that starts at address `a` leaves at `b`: each clock writes the byte of its address to
-- the next one, and the last writes its low byte in place.
abbrev pub filled : Eeprom → ℕ → ℕ → ℕ
filled e a b =
    if b == 0x7ff
    then e.data_word % 256
    else if ltb a b && ltb b 0x7ff
    then (if b % 2 == 0 then e.data_word % 256 else e.data_word / 256)
    else e.mem b

fill-step :
    (e : Eeprom)
    → e.state ≡ fill
    → e.write_enable ≡ true
    → e.address < 0x7ff
    → let n = step e false in
      (n.state ≡ fill)
      × (n.write_enable ≡ true)
      × (n.address ≡ e.address + 1)
      × (n.data_word ≡ e.data_word)
      × ((b : ℕ)
          → n.mem b ≡ (
              if b == e.address + 1
              then (if e.address % 2 == 1 then e.data_word % 256 else e.data_word / 256)
              else e.mem b))
unfolding step load_byte transition commit store
fill-step e q w h = (ground arith, ground arith, ground arith, ground arith, λ b. ground arith)

fill_end :
    (e : Eeprom)
    → e.state ≡ fill
    → e.write_enable ≡ true
    → e.address ≡ 0x7ff
    → let n = step e false in
      (n.state ≡ idle) × ((b : ℕ) → n.mem b ≡ (if b == 0x7ff then e.data_word % 256 else e.mem b))
unfolding step load_byte transition commit store
fill_end e q w h = (ground arith, λ b. ground arith)

keeps_going : (e n : Eeprom) → n.state ≡ fill → is_settled e.state n ≡ false
unfolding is_settled is_busy
keeps_going e n q = ground arith

settle_end :
    (fuel : ℕ) (e : Eeprom)
    → (step e false).state ≡ idle
    → (b : ℕ) → (settle_for (suc fuel) e).mem b ≡ (step e false).mem b
unfolding settle_for
settle_end fuel e q b = elim (Bool-cases (is_settled e.state (step e false))) [
  | inl done ↦ rw (done, settle_for)
  | inr more ↦
      rw (more, settle_for) (ap (λ m. m b) (quiet_settle fuel (step e false) (inr (inl q))).0)
]

settle_next :
    (fuel : ℕ) (e : Eeprom)
    → (step e false).state ≡ fill
    → settle_for (suc fuel) e ≡ settle_for fuel (step e false)
unfolding settle_for
settle_next fuel e q = rw (keeps_going e (step e false) q, settle_for)

settle_fill :
    (k fuel : ℕ) (e : Eeprom)
    → e.state ≡ fill
    → e.write_enable ≡ true
    → e.address + k ≡ 0x7ff
    → k < fuel
    → (b : ℕ) → (settle_for fuel e).mem b ≡ filled e e.address b
settle_fill k zero e q w a h b = absurd (omega arith)
settle_fill zero (suc fuel) e q w a h b =
    let (i, m) = fill_end e q w (omega arith) in settle_end fuel e i b ∙ m b ∙ ground arith
settle_fill (suc k) (suc fuel) e q w a h b =
    let (s, w', n, d, m) = fill-step e q w (omega arith) in
    ap (λ (x : Eeprom). x.mem b) (settle_next fuel e s)
    ∙ settle_fill k fuel (step e false) s w' (omega arith) (omega arith) b
    ∙ ground (arith, m b)

no_write_bit : (i : ℕ) → (i / 256 ≡ 1) ⊎ (i / 256 ≡ 2) → has i 0x400 ≡ false
unfolding bit_at
no_write_bit i h = has_pow 10 i ∙ ground arith

execute-fill :
    (e : Eeprom)
    → e.state ≡ execute
    → (e.instr / 256 ≡ 1) ⊎ (e.instr / 256 ≡ 2)
    → let n = step e false in
      (n.state ≡ fill)
      × (n.write_enable ≡ e.write_enable)
      × (n.address ≡ 0)
      × (n.data_word ≡ e.data_word)
      × ((b : ℕ) → n.mem b ≡ e.mem b)
unfolding step load_byte transition run_command commit
execute-fill e q c = (
  ground (arith, no_write_bit e.instr c),
  ground (arith, no_write_bit e.instr c),
  ground (arith, no_write_bit e.instr c),
  ground (arith, no_write_bit e.instr c),
  λ b. ground (arith, no_write_bit e.instr c),
)

-- WRALL and ERAL, once the chip is deselected: the data word fills the memory as the chip's
-- emulation does it, from address 1 on. Even addresses get the low byte, odd ones the high byte, the
-- last address the low byte; address 0 keeps what it had.
pub settle_fill_all :
    (e : Eeprom)
    → e.state ≡ execute
    → (e.instr / 256 ≡ 1) ⊎ (e.instr / 256 ≡ 2)
    → e.write_enable ≡ true
    → (b : ℕ) → (settle e).mem b ≡ filled e 0 b
unfolding settle
settle_fill_all e q c w b =
    let (s, w', n, d, m) = execute-fill e q c in
    ap (λ (x : Eeprom). x.mem b) (settle_next 8191 e s)
    ∙ settle_fill 0x7ff 8191 (step e false) s (w' ∙ w) (omega arith) (omega arith) b
    ∙ ground (arith, m b)
