-- ===== src/Wd177x/State.antt =====
-- The controller's state and registers.
use ue2_c64u_emulator.Base.{
  ℕ, ◌+◌, ◌*◌, ◌/◌, ◌%◌, bit_and, bit_or, Bool, false, not, ◌&&◌, ◌||◌, ◌==◌, if◌then◌else◌,
  bool_eq, ltb, from_bool, has, u8, not8, List, [], ◌∷◌, ◌++◌, length, get_or, rest, Memory, store,
}

abbrev pub cycles_per_ms : ℕ
cycles_per_ms = 2000

abbrev pub fifo_depth : ℕ
fifo_depth = 7

abbrev pub max_track : ℕ
max_track = 83

abbrev pub index_period : ℕ
index_period = 0xc7

abbrev pub st_busy : ℕ
st_busy = 0x01

abbrev pub st_drq : ℕ
st_drq = 0x02

pub data DmaState : Type 0 where
  dma_idle : DmaState
  write_delay : ℕ → DmaState

-- The memory that the transfers read and write.
pub record DmaMem (M : Type 0) : Type 0 where
  pub read : M → ℕ → ℕ × M
  pub write : M → ℕ → ℕ → M

-- Memory of `size` bytes: reads past the end give 0, writes there are dropped.
abbrev pub ram : ℕ → DmaMem Memory
ram size = record {
  read = λ m a. (if ltb a size then m a else 0, m);
  write = λ m a v. if ltb a size then store m a v else m;
}

pub record Wd177x : Type 0 where
  pub status : ℕ
  pub track : ℕ
  pub sector : ℕ
  pub command : ℕ
  pub data_reg : ℕ
  pub wdata_valid : Bool
  pub rdata_valid : Bool
  pub completion : Bool
  pub fifo : List ℕ
  pub dma_mode : ℕ
  pub dma : DmaState
  pub addr : ℕ
  pub len : ℕ
  pub index_enable : Bool
  pub index_polarity : Bool
  pub goto_track : ℕ
  pub step_time : ℕ
  pub cur_track : ℕ
  pub step_timer : ℕ
  pub index_cnt : ℕ
  pub index_out : Bool
  pub clk : ℕ
  pub ms_frac : ℕ
  pub in_reset : Bool

unfoldable pub reset : Wd177x → Wd177x
reset w = record w {
  wdata_valid = false;
  rdata_valid = false;
  track = 1;
  sector = 0;
  command = 0;
  status = 0;
  dma_mode = 0;
  dma = dma_idle;
  step_time = 0x0c;
  completion = false;
  goto_track = 0;
  fifo = [];
  step_timer = 1;
  index_cnt = index_period;
  index_out = false;
  cur_track = 0;
}

-- The value that `default` resets.
abbrev pub blank : Wd177x
blank = record {
  status = 0;
  track = 0;
  sector = 0;
  command = 0;
  data_reg = 0;
  wdata_valid = false;
  rdata_valid = false;
  completion = false;
  fifo = [];
  dma_mode = 0;
  dma = dma_idle;
  addr = 0;
  len = 0;
  index_enable = false;
  index_polarity = false;
  goto_track = 0;
  step_time = 0;
  cur_track = 0;
  step_timer = 0;
  index_cnt = index_period;
  index_out = false;
  clk = 0;
  ms_frac = 0;
  in_reset = false;
}

unfoldable pub default : Wd177x
unfolding reset
default = reset blank

unfoldable pub set_reset : Wd177x → Bool → Wd177x
set_reset w held = let w' = record w { in_reset = held } in if held then reset w' else w'

unfoldable pub rebase : Wd177x → ℕ → Wd177x
rebase w clk = record w { clk = clk; ms_frac = 0 }

unfoldable pub irq : Wd177x → Bool
irq w = not (length w.fifo == 0)

unfoldable pub push : Wd177x → Wd177x
push w =
    if ltb (length w.fifo) fifo_depth
    then record w { fifo = w.fifo ++ ((from_bool w.completion * 256 + w.command) ∷ []) }
    else w

-- The address after one byte, in 24 bits.
abbrev pub next_addr : ℕ → ℕ
next_addr a = (a + 1) % 16777216

unfoldable pub cpu_peek : Wd177x → ℕ → ℕ
cpu_peek w addr =
    let r = addr % 4 in
    if r == 0
    then (if not (has w.command 0x80) && w.index_enable
        then bit_or (bit_and w.status (not8 st_drq))
            (from_bool (not (bool_eq w.index_out w.index_polarity)) * 2)
        else w.status)
    else if r == 1
    then w.track
    else if r == 2
    then w.sector
    else w.data_reg

unfoldable pub fw_read : Wd177x → ℕ → ℕ
fw_read w off =
    let head = get_or w.fifo 0 0 in
    let r = off % 16 in
    if r == 0x0
    then u8 head
    else if r == 0x1
    then w.track
    else if r == 0x2
    then w.sector
    else if r == 0x3
    then w.data_reg
    else if r == 0x4 || r == 0x5
    then w.status
    else if r == 0x6
    then bit_or (bit_or (head / 256 % 2) (from_bool w.in_reset * 64))
        (from_bool (not (length w.fifo == 0)) * 128)
    else if r == 0x7
    then w.dma_mode
    else if r == 0xc
    then u8 w.len
    else if r == 0xd
    then w.len / 256 % 64
    else if r == 0xe
    then from_bool (not (w.cur_track == w.goto_track))
    else if r == 0xf
    then w.step_time
    else 0

-- A command is taken when the controller is not busy, a Force Interrupt always.
unfoldable pub take_command : Wd177x → ℕ → Wd177x
take_command w val =
    if not (has w.status st_busy) || val / 16 == 0xd
    then record (push
        (record w { command = val; status = bit_or w.status st_busy; completion = false })) {
          wdata_valid = false;
        }
    else w

unfoldable pub fw_register : Wd177x → ℕ → ℕ → Wd177x
fw_register w r val =
    if r == 0x0
    then record w { index_enable = has val 1; index_polarity = has val 2 }
    else if r == 0x1
    then record w { track = val }
    else if r == 0x4
    then record w { status = bit_and w.status (not8 val) }
    else if r == 0x5
    then record w { status = bit_or w.status val }
    else if r == 0x6
    then record w { fifo = rest w.fifo }
    else if r == 0x7
    then record w { dma_mode = val % 4 }
    else if r == 0x8
    then record w { addr = bit_or (bit_and w.addr 0xffffff00) val }
    else if r == 0x9
    then record w { addr = bit_or (bit_and w.addr 0xffff00ff) (val * 256) }
    else if r == 0xa
    then record w { addr = bit_or (bit_and w.addr 0xff00ffff) (val * 65536) }
    else if r == 0xc
    then record w { len = bit_or (bit_and w.len 0xff00) val }
    else if r == 0xd
    then record w { len = bit_or (bit_and w.len 0xff) (val % 64 * 256) }
    else if r == 0xe
    then record w { goto_track = val % 128 }
    else if r == 0xf
    then record w { step_time = val % 32 }
    else w
