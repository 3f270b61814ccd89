-- ===== src/Wd177x/Transfer.antt =====
-- The data register's two sides: the queue, the transfers and the accesses that drive them.
use ue2_c64u_emulator.Base.{
  ℕ, zero, suc, ◌+◌, ◌-◌, ◌%◌, bit_and, bit_or, Bool, true, false, not, ◌==◌, if◌then◌else◌, not8,
}
use ue2_c64u_emulator.Wd177x.State.{
  DmaMem, Wd177x, cpu_peek, dma_idle, fw_register, next_addr, push, st_busy, st_drq, take_command,
  write_delay,
}

module _ {M : Type 0} (dev : DmaMem M) where
  -- One round of the transfer's loop; `true` goes round again.
  unfoldable pub settle_round : Wd177x → M → Bool × Wd177x × M
  settle_round w mem = elim (w.dma) [
    | write_delay n ↦ (false, w, mem)
    | dma_idle ↦
        if w.dma_mode == 1
        then (if w.rdata_valid
            then (false, w, mem)
            else if w.len == 0
            then (false, record w { status = bit_and w.status (not8 st_busy); dma_mode = 0 }, mem)
            else (let (v, mem') = dev.read mem (w.addr % 16777216) in
                (
                  true,
                  record w {
                    data_reg = v;
                    rdata_valid = true;
                    status = bit_or w.status st_drq;
                    len = w.len - 1;
                    addr = next_addr w.addr;
                  },
                  mem',
                )))
        else if w.dma_mode == 2
        then (if not w.wdata_valid
            then (false, record w { status = bit_or w.status st_drq }, mem)
            else (let len' = (w.len + 65535) % 16384 in
                let taken = record w {
                  status = bit_and (bit_or w.status st_drq) (not8 st_drq);
                  wdata_valid = false;
                  len = len';
                  addr = next_addr w.addr;
                } in
                let mem' = dev.write mem (w.addr % 16777216) w.data_reg in
                if len' == 0
                then (
                  false,
                  push (record taken { dma_mode = 3; dma = write_delay 0xff; completion = true }),
                  mem',
                )
                else (true, taken, mem')))
        else if w.dma_mode == 0
        then (false, record w { status = bit_and w.status (not8 st_drq); wdata_valid = false }, mem)
        else (false, w, mem)
  ]

  unfoldable pub settle_for : ℕ → Wd177x → M → Wd177x × M
  settle_for zero w mem = (w, mem)
  settle_for (suc fuel) w mem =
      let (again, w', mem') = settle_round w mem in
      elim again [ true ↦ settle_for fuel w' mem' | false ↦ (w', mem') ]

  -- Three rounds are enough: see `Dma`.
  unfoldable pub settle : Wd177x → M → Wd177x × M
  unfolding settle_for
  settle w mem = if w.in_reset then (w, mem) else settle_for 3 w mem

  unfoldable pub cpu_read : Wd177x → ℕ → M → ℕ × Wd177x × M
  cpu_read w addr mem =
      let v = cpu_peek w addr in
      if addr % 4 == 3
      then (let w' = record w {
        status = if w.rdata_valid then bit_and w.status (not8 st_drq) else w.status;
        rdata_valid = false;
      } in
          let (w'', mem') = settle w' mem in (v, w'', mem'))
      else (v, w, mem)

  unfoldable pub cpu_store : Wd177x → ℕ → ℕ → M → Wd177x × M
  cpu_store w addr val mem =
      let r = addr % 4 in
      let w' =
        if r == 0
        then take_command w val
        else if r == 1
        then record w { track = val }
        else if r == 2
        then record w { sector = val }
        else record w { data_reg = val; wdata_valid = true } in
      if w.in_reset then (w, mem) else settle w' mem

  unfoldable pub fw_write : Wd177x → ℕ → ℕ → M → Wd177x × M
  fw_write w off val mem = settle (fw_register w (off % 16) val) mem
