-- ===== src/Clock.antt =====
-- crates/c64-bridge/src/clock.rs: the Commodore 64's cycle count as a function of the emulator's clock.
mod Tests
use native.Mathlib.Nat.{mod-eq_of_lt}
use ue2_c64u_emulator.Base.{ℕ, ◌+◌, ◌-◌, ◌*◌, ◌/◌, ◌%◌, ◌<◌, ◌≤◌, ◌≡◌, arith}

-- `CLOCK_HZ` of crates/ue2-core/src/time.rs
abbrev pub clock_hz : ℕ
clock_hz = 100_000_000

-- An anchor, and the model's cycles per second.
pub record Clock : Type 0 where
  pub now : ℕ
  pub cycles : ℕ
  pub hz : ℕ

-- The product is taken in 128 bits, and the quotient cut to 64.
unfoldable pub cycles : Clock → ℕ → ℕ
cycles c now = c.cycles + (now - c.now) * c.hz / clock_hz % 18446744073709551616

unfoldable pub time_of : Clock → ℕ → ℕ
time_of c n = c.now + (n - c.cycles) * clock_hz / c.hz % 18446744073709551616

quotient_bounds : (n hz : ℕ) → 0 < hz → (n / hz * hz ≤ n) × (n < n / hz * hz + hz)
quotient_bounds n hz h = (grind arith, grind arith)

-- The cycle count at the time of cycle `n` is `n` or the one before: both conversions round down,
-- and no rounding is carried over from one call to the next. The model's clock is not faster than
-- the emulator's, and the times fit 64 bits.
pub cycles-time_of :
    (c : Clock) (n : ℕ)
    → 0 < c.hz
    → c.hz ≤ clock_hz
    → c.cycles ≤ n
    → n < 18446744073709551616
    → (n - c.cycles) * clock_hz / c.hz < 18446744073709551616
    → (cycles c (time_of c n) ≤ n) × (n ≤ cycles c (time_of c n) + 1)
unfolding cycles time_of
cycles-time_of c n pos slow after fits fits' =
    let clocks : ℕ = (n - c.cycles) * clock_hz / c.hz in
    let (below, above) = quotient_bounds ((n - c.cycles) * clock_hz) c.hz pos in
    let back : (c.now + clocks % 18446744073709551616 - c.now) ≡ clocks =
      omega (arith, mod-eq_of_lt fits') in
    rw back (omega (arith, below, above), omega (arith, below, above))
