-- ===== src/Wd177x/Invariant.antt =====
-- What every operation of the controller keeps: the queue's depth, the head's range, the widths.
use ue2_c64u_emulator.Base.{
  ℕ, zero, suc, ◌+◌, ◌-◌, ◌*◌, ◌%◌, ◌≤◌, ◌<◌, ◌≡◌, refl, arith, max, Bool, true, false, from_bool,
  bit_and, [], ◌∷◌, length, length-append, length-rest, if_elim, Bool-cases, inl, inr, ◌==◌,
}
use ue2_c64u_emulator.Base.Bits.{bit_and-le, bit_and-le_left, bit_or-lt}
use ue2_c64u_emulator.Wd177x.State.{
  Wd177x, DmaState, dma_idle, write_delay, DmaMem, push, take_command, fw_register, reset,
  set_reset, fifo_depth,
}
use ue2_c64u_emulator.Wd177x.Transfer.{
  settle_round, settle_for, settle, cpu_read, cpu_store, fw_write,
}
use ue2_c64u_emulator.Wd177x.Motion.{step, ms_tick, ms_ticks, run_delay, run_to}

pub record IsValid (w : Wd177x) : Type 0 where
  pub queue : length w.fifo ≤ fifo_depth
  pub head : w.cur_track ≤ 83
  pub len_fits : w.len < 16384
  pub mode_fits : w.dma_mode < 4
  pub request_fits : w.goto_track < 128
  pub time_fits : w.step_time < 32

push-IsValid : {w : Wd177x} → IsValid w → IsValid (push w)
unfolding push
push-IsValid {w} v =
    ground (arith, length-append w.fifo ((from_bool w.completion * 256 + w.command) ∷ []))

module _ {M : Type 0} (dev : DmaMem M) where
  round_by_state :
      (w : Wd177x) (m : M) (d : DmaState) → w.dma ≡ d → IsValid w → IsValid (settle_round dev w m).1
  unfolding settle_round push
  round_by_state w m dma_idle q v = ground (
    arith,
    length-append w.fifo ((1 * 256 + w.command) ∷ []),
    length-append w.fifo ((256 + w.command) ∷ []),
  )
  round_by_state w m (write_delay n) q v = ground arith

  settle_for-IsValid : (n : ℕ) (w : Wd177x) (m : M) → IsValid w → IsValid (settle_for dev n w m).0
  unfolding settle_for
  settle_for-IsValid zero w m v = v
  settle_for-IsValid (suc n) w m v = elim (Bool-cases (settle_round dev w m).0) [
    | inl more ↦
        rw (more, settle_for)
          (settle_for-IsValid n (settle_round dev w m).1 (settle_round dev w m).2
            (round_by_state w m w.dma refl v))
    | inr done ↦ rw (done, settle_for) (round_by_state w m w.dma refl v)
  ]

  settle-IsValid : (w : Wd177x) (m : M) → IsValid w → IsValid (settle dev w m).0
  unfolding settle
  settle-IsValid w m v =
      if_elim (λ (r : Wd177x × M). IsValid r.0) w.in_reset _ _ v (settle_for-IsValid 3 w m v)

take_command-IsValid : (w : Wd177x) (val : ℕ) → IsValid w → IsValid (take_command w val)
unfolding take_command push
take_command-IsValid w val v = ground (
  arith,
  length-append w.fifo ((0 * 256 + val) ∷ []),
  length-append w.fifo ((0 + val) ∷ []),
  length-append w.fifo (val ∷ []),
)

fw_register-IsValid :
    (w : Wd177x) (r val : ℕ) → val < 256 → IsValid w → IsValid (fw_register w r val)
unfolding fw_register
fw_register-IsValid w r val h v = ground (
  arith,
  length-rest w.fifo,
  bit_or-lt 14 (bit_and w.len 0xff00) val,
  bit_and-le_left w.len 0xff00,
  bit_or-lt 14 (bit_and w.len 0xff) (val % 64 * 256),
  bit_and-le w.len 0xff,
)

step-IsValid : (w : Wd177x) → IsValid w → IsValid (step w)
unfolding step
step-IsValid w v = ground arith

ms_ticks-IsValid : (motor : Bool) (n : ℕ) (w : Wd177x) → IsValid w → IsValid (ms_ticks motor n w)
unfolding ms_ticks ms_tick
ms_ticks-IsValid motor zero w v = v
ms_ticks-IsValid true (suc n) w v = ms_ticks-IsValid true n _ (step-IsValid _ (ground arith))
ms_ticks-IsValid false (suc n) w v = ms_ticks-IsValid false n _ (step-IsValid _ (ground arith))

run_delay-IsValid :
    (w : Wd177x) (cycles : ℕ) (d : DmaState) → w.dma ≡ d → IsValid w → IsValid (run_delay w cycles)
unfolding run_delay
run_delay-IsValid w cycles dma_idle q v = ground arith
run_delay-IsValid w cycles (write_delay n) q v = ground arith

-- The clock's fraction is no part of the invariant.
same_registers : (w : Wd177x) (f : ℕ) → IsValid w → IsValid (record w { ms_frac = f })
same_registers w f v = ground arith

run_to-IsValid : (w : Wd177x) (clk : ℕ) (motor : Bool) → IsValid w → IsValid (run_to w clk motor)
unfolding run_to
run_to-IsValid w clk motor v =
    let moved : IsValid (record w { clk = max w.clk clk }) = ground arith in
    let delayed : IsValid (run_delay (record w { clk = max w.clk clk }) (clk - w.clk)) =
      run_delay-IsValid _ (clk - w.clk) w.dma refl moved in
    if_elim IsValid w.in_reset _ _ moved
      (ms_ticks-IsValid motor _ _ (step-IsValid _ (same_registers _ _ delayed)))

-- Everything that the two processors, the clock and the reset line can do to the controller.
pub data Access : Type 0 where
  drive_read : ℕ → Access
  drive_store : ℕ → ℕ → Access
  firmware_write : ℕ → ℕ → Access
  time_passes : ℕ → Bool → Access
  reset_line : Bool → Access

module _ {M : Type 0} (dev : DmaMem M) where
  unfoldable pub access : Wd177x × M → Access → Wd177x × M
  access (w, m) (drive_read a) = let (v, w', m') = cpu_read dev w a m in (w', m')
  access (w, m) (drive_store a val) = cpu_store dev w a val m
  access (w, m) (firmware_write off val) = fw_write dev w off val m
  access (w, m) (time_passes clk motor) = (run_to w clk motor, m)
  access (w, m) (reset_line held) = (set_reset w held, m)

  abbrev pub IsByteAccess : Access → Type 0
  IsByteAccess (drive_store a val) = val < 256
  IsByteAccess (firmware_write off val) = val < 256
  IsByteAccess _ = Unit

  -- Every access keeps the command queue within its depth, the head within the 83 tracks, and the
  -- length, the mode, the requested track and the step time within their fields.
  pub access-IsValid :
      (w : Wd177x) (m : M) (x : Access) → IsByteAccess x → IsValid w → IsValid (access (w, m) x).0
  unfolding access cpu_read cpu_store fw_write set_reset reset
  access-IsValid w m (drive_read a) b v =
      if_elim (λ (r : ℕ × Wd177x × M). IsValid r.1) (a % 4 == 3) _ _
        (settle-IsValid dev _ m (ground arith)) v
  access-IsValid w m (drive_store a val) b v =
      if_elim (λ (r : Wd177x × M). IsValid r.0) w.in_reset _ _ v
        (settle-IsValid dev _ m (ground (arith, take_command-IsValid w val v)))
  access-IsValid w m (firmware_write off val) b v =
      settle-IsValid dev _ m (fw_register-IsValid w _ val b v)
  access-IsValid w m (time_passes clk motor) b v = run_to-IsValid w clk motor v
  access-IsValid w m (reset_line held) b v = ground arith
