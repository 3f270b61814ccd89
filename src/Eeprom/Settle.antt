-- ===== src/Eeprom/Settle.antt =====
-- The state machine between two pin changes: its invariant, and that it comes to rest.
use ue2_c64u_emulator.Base.{
  ℕ, zero, suc, ◌-◌, ◌<◌, ◌≡◌, refl, arith, Bool, true, false, if◌then◌else◌, store, Bool-cases,
  inl, inr, ◌⊎◌,
}
use ue2_c64u_emulator.Eeprom.{
  Eeprom, State, idle, selected, instruction, decode, collect_data, wait_deselect, execute, error,
  fill, write2, reading, load_byte, commit, start_command, run_command, transition, step, is_busy,
  same_state, is_settled, settle_for, settle,
}

-- The registers fit their widths, so each memory access is inside the array.
pub record IsValid (e : Eeprom) : Type 0 where
  pub address_fits : e.address < 2048
  pub instr_fits : e.instr < 4096
  pub data_fits : e.data_word < 65536
  pub count_fits : e.count < 16
  pub bytes : (a : ℕ) → e.mem a < 256

module _ (e : Eeprom) (rising : Bool) (v : IsValid e) where
  widths :
      (s : State)
      → e.state ≡ s
      → ((step e rising).address < 2048)
        × ((step e rising).instr < 4096)
        × ((step e rising).data_word < 65536)
        × ((step e rising).count < 16)
  unfolding step load_byte transition start_command run_command commit
  widths idle q = ground (arith, v.bytes e.address)
  widths selected q = ground (arith, v.bytes e.address)
  widths instruction q = ground (arith, v.bytes e.address)
  widths decode q = ground (arith, v.bytes e.address)
  widths collect_data q = ground (arith, v.bytes e.address)
  widths wait_deselect q = ground (arith, v.bytes e.address)
  widths execute q = ground (arith, v.bytes e.address)
  widths error q = ground (arith, v.bytes e.address)
  widths fill q = ground (arith, v.bytes e.address)
  widths write2 q = ground (arith, v.bytes e.address)
  widths reading q = ground (arith, v.bytes e.address)

  bytes_kept : (s : State) → e.state ≡ s → (a : ℕ) → (step e rising).mem a < 256
  unfolding step load_byte transition start_command run_command commit store
  bytes_kept idle q a = ground (arith, v.bytes a)
  bytes_kept selected q a = ground (arith, v.bytes a)
  bytes_kept instruction q a = ground (arith, v.bytes a)
  bytes_kept decode q a = ground (arith, v.bytes a)
  bytes_kept collect_data q a = ground (arith, v.bytes a)
  bytes_kept wait_deselect q a = ground (arith, v.bytes a)
  bytes_kept execute q a = ground (arith, v.bytes a)
  bytes_kept error q a = ground (arith, v.bytes a)
  bytes_kept fill q a = ground (arith, v.bytes a)
  bytes_kept write2 q a = ground (arith, v.bytes a)
  bytes_kept reading q a = ground (arith, v.bytes a)

-- A clock keeps the registers within their widths.
pub step-IsValid : (e : Eeprom) (rising : Bool) → IsValid e → IsValid (step e rising)
step-IsValid e rising v =
    let (a, i, d, c) = widths e rising v e.state refl in
    record {
      address_fits = a;
      instr_fits = i;
      data_fits = d;
      count_fits = c;
      bytes = bytes_kept e rising v e.state refl;
    }

-- The clocks without an edge that a state needs at most before it waits.
rank_of : State → Bool → Bool → ℕ → ℕ
rank_of idle sel load a = if sel then 3 else 1
rank_of execute sel load a = 2060
rank_of fill sel load a = 2052 - a
rank_of write2 sel load a = 4
rank_of decode sel load a = 2070
rank_of wait_deselect sel load a = if sel then 1 else 2065
rank_of _ sel load a = if load then 3 else 2

rank : Eeprom → ℕ
rank e = rank_of e.state e.sel e.load e.address

module _ (e : Eeprom) (v : IsValid e) where
  progress :
      (s : State)
      → e.state ≡ s
      → (is_settled e.state (step e false) ≡ true) ⊎ (rank (step e false) < rank e)
  unfolding is_settled is_busy same_state step load_byte transition start_command run_command commit
      rank rank_of
  progress idle q = ground arith
  progress selected q = ground arith
  progress instruction q = ground arith
  progress decode q = ground arith
  progress collect_data q = ground arith
  progress wait_deselect q = ground arith
  progress execute q = ground arith
  progress error q = ground arith
  progress fill q = ground arith
  progress write2 q = ground arith
  progress reading q = ground arith

  rest :
      (s : State)
      → e.state ≡ s
      → is_settled e.state (step e false) ≡ true
      → step (step e false) false ≡ step e false
  unfolding is_settled is_busy same_state step load_byte transition start_command run_command commit
  rest idle q h = ground arith
  rest selected q h = ground arith
  rest instruction q h = ground arith
  rest decode q h = ground arith
  rest collect_data q h = ground arith
  rest wait_deselect q h = ground arith
  rest execute q h = ground arith
  rest error q h = ground arith
  rest fill q h = ground arith
  rest write2 q h = ground arith
  rest reading q h = ground arith

settle_for-AtRest :
    (fuel : ℕ) (e : Eeprom)
    → IsValid e
    → rank e < fuel
    → (is_busy (settle_for fuel e).state ≡ false)
      × ((settle_for fuel e).load ≡ false)
      × (step (settle_for fuel e) false ≡ settle_for fuel e)
unfolding settle_for
settle_for-AtRest zero e v h = absurd (omega arith)
settle_for-AtRest (suc fuel) e v h = elim (Bool-cases (is_settled e.state (step e false))) [
  | inl done ↦ rw (done, settle_for) (still done)
  | inr more ↦
      rw (more, settle_for)
        (settle_for-AtRest fuel (step e false) (step-IsValid e false v) (closer more))
]
  where
    still :
        is_settled e.state (step e false) ≡ true
        → (is_busy (step e false).state ≡ false)
          × ((step e false).load ≡ false)
          × (step (step e false) false ≡ step e false)
    still done = (
      unfold is_settled in ground arith,
      unfold is_settled in ground arith,
      rest e v e.state refl done,
    )

    closer : is_settled e.state (step e false) ≡ false → rank (step e false) < fuel
    closer more = ground (arith, progress e v e.state refl)

rank-lt : (e : Eeprom) (s : State) → e.state ≡ s → rank e < 8192
unfolding rank rank_of
rank-lt e idle q = ground arith
rank-lt e s q = ground arith

-- From every valid state the 8192 clocks of `settle` are enough: the machine comes to rest in a state
-- that waits for the next pin change, with no read under way, and a further clock without an edge
-- changes nothing.
pub settle-AtRest :
    (e : Eeprom)
    → IsValid e
    → (is_busy (settle e).state ≡ false)
      × ((settle e).load ≡ false)
      × (step (settle e) false ≡ settle e)
unfolding settle
settle-AtRest e v = settle_for-AtRest 8192 e v (rank-lt e e.state refl)
