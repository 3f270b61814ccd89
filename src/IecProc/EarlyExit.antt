-- ===== src/IecProc/EarlyExit.antt =====
-- What the early exit of a microsecond leaves out.
use ue2_c64u_emulator.Base.{
  ℕ, zero, suc, ◌≡◌, refl, sym, ap, ◌∙◌, arith, ◌⊎◌, inl, inr, Bool, true, false, not, ◌==◌,
  if◌then◌else◌, has, [], Bool-cases, eq_true_of_eq,
}
use ue2_c64u_emulator.IecProc.State.{IecProc, State, get_inst, slow_ram, decode, wait_true, drivers}
use ue2_c64u_emulator.IecProc.Engine.{strobe, advance, watch_atn, clock, clocks, is_blocked}
use ue2_c64u_emulator.IecProc.Waits.{
  advance-decode, advance-get_inst, advance-slow_ram, fixed_as, decode_waits, wait_waits,
  blocked-state,
}

-- The engine starts again at address 1, with nothing left to send.
pub record IsRestarted (p : IecProc) : Type 0 where
  pub at_one : p.pc ≡ 1
  pub fetching : p.state ≡ get_inst
  pub flushing : p.flush ≡ true
  pub emptied : p.down ≡ []

pub watch_cases :
    (p : IecProc) (inputs : ℕ)
    → IsRestarted (watch_atn p inputs) ⊎ (watch_atn p inputs ≡ record p { atn_prev = has inputs 4 })
unfolding watch_atn
watch_cases p inputs = ground arith

strobe-state : (p : IecProc) (tick : Bool) → (strobe p tick).state ≡ p.state
unfolding strobe
strobe-state p tick = ground arith

-- A clock that leaves the program counter, the state and the timer alone has restarted the engine, or
-- the next one changes nothing at all.
blocked_cases :
    (p : IecProc) (inputs : ℕ) (tick : Bool)
    → (clock p inputs tick).state ≡ p.state
    → IsRestarted (clock p inputs tick)
      ⊎ (clock (clock p inputs tick) inputs false ≡ clock p inputs tick)
unfolding clock
blocked_cases p inputs tick same = elim (watch_cases (advance r inputs) inputs) [
  | inl restarted ↦ inl restarted
  | inr kept ↦ inr (
      fixed_as _ _ inputs kept (
        by_state r.state refl
          (sym (ap (λ (t : IecProc). t.state) kept) ∙ same ∙ sym (strobe-state p tick))))
]
  where
    r : IecProc
    r = strobe p tick

    by_state :
        (s : State)
        → r.state ≡ s
        → (advance r inputs).state ≡ s
        → clock (record (advance r inputs) { atn_prev = has inputs 4 }) inputs false
          ≡ record (advance r inputs) { atn_prev = has inputs 4 }
    by_state get_inst e h = absurd (ground (arith, advance-get_inst r inputs e))
    by_state slow_ram e h = absurd (ground (arith, advance-slow_ram r inputs e))
    by_state decode e h =
        fixed_as _ _ inputs
          (ap (λ (t : IecProc). record t { atn_prev = has inputs 4 }) (advance-decode r inputs e))
          (decode_waits r inputs
            (sym (ap (λ (t : IecProc). t.state) (advance-decode r inputs e)) ∙ h))
    by_state wait_true e h = wait_waits r inputs e h

module _ {S : Type 0} (bus : S → ℕ → S × ℕ) where
  -- The clocks left of a microsecond, all of them.
  unfoldable pub all_clocks : ℕ → IecProc → S → ℕ → Bool → IecProc × S
  all_clocks zero p s inputs tick = (p, s)
  all_clocks (suc n) p s inputs tick =
      let q = clock p inputs tick in
      let asked = bus s (drivers q) in
      let moved = all_clocks n q asked.0 asked.1 false in
      let on = all_clocks n q s inputs false in if not (drivers q == drivers p) then moved else on

  all_clocks-fixed :
      (n : ℕ) (q : IecProc) (s : S) (inputs : ℕ)
      → clock q inputs false ≡ q
      → all_clocks n q s inputs false ≡ (q, s)
  unfolding all_clocks
  all_clocks-fixed zero q s inputs e = refl
  all_clocks-fixed (suc n) q s inputs e =
      rw (e, eq_true_of_eq (drivers q) (drivers q) refl) (all_clocks-fixed n q s inputs e)

  -- The clocks of a microsecond, which stop early when the engine is blocked, end as all of them would,
  -- with the same requests to the bus, unless the engine has just restarted at address 1: an engine
  -- that was about to fetch there when ATN fell looks blocked too, and loses the rest of the
  -- microsecond.
  pub clocks_exact :
      (n : ℕ) (p : IecProc) (s : S) (inputs : ℕ) (tick : Bool)
      → (clocks bus n p s inputs tick ≡ all_clocks n p s inputs tick)
        ⊎ IsRestarted (clocks bus n p s inputs tick).0
  unfolding clocks all_clocks
  clocks_exact zero p s inputs tick = inl refl
  clocks_exact (suc n) p s inputs tick = elim (Bool-cases (drivers q == drivers p)) [
    | inr moves ↦ rw moves (clocks_exact n q (bus s (drivers q)).0 (bus s (drivers q)).1 false)
    | inl stays ↦ elim (Bool-cases (is_blocked p q)) [
      | inr goes_on ↦ rw (stays, goes_on) (clocks_exact n q s inputs false)
      | inl blocked ↦
          rw (stays, blocked)
            (elim (blocked_cases p inputs tick (blocked-state p q blocked)) [
              | inl restarted ↦ inr restarted
              | inr still ↦ inl (sym (all_clocks-fixed n q s inputs still))
            ])
    ]
  ]
    where
      q : IecProc
      q = clock p inputs tick
