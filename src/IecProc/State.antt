-- ===== src/IecProc/State.antt =====
-- The engine's state, its two FIFOs and its reset.
use ue2_c64u_emulator.Base.{ℕ, ◌/◌, bit_and, bit_or, Bool, true, false, u8, not32, List, [], Memory}

abbrev pub sys_per_us : ℕ
sys_per_us = 100

abbrev pub version : ℕ
version = 0x25

abbrev pub code_words : ℕ
code_words = 512

abbrev pub code_base : ℕ
code_base = 0x800

abbrev pub up_depth : ℕ
up_depth = 2048

abbrev pub up_afull : ℕ
up_afull = 1535

abbrev pub down_depth : ℕ
down_depth = 15

abbrev pub stack_depth : ℕ
stack_depth = 15

abbrev pub out_reset : ℕ
out_reset = 0xf0000

pub data State : Type 0 where
  get_inst slow_ram decode wait_true : State

-- The code RAM is an array of `code_words` words. The lists have the oldest entry first, the stack
-- its top.
pub record IecProc : Type 0 where
  pub code : Memory
  pub enabled : Bool
  pub pc : ℕ
  pub state : State
  pub instr : ℕ
  pub timer : ℕ
  pub timer_done : Bool
  pub out : ℕ
  pub valid : Bool
  pub ctrl : Bool
  pub timeout : Bool
  pub stack : List ℕ
  pub atn_prev : Bool
  pub up : List ℕ
  pub down : List ℕ
  pub flush : Bool
  pub irq_status : Bool
  pub irq_enable : Bool

unfoldable pub reset : IecProc → IecProc
reset p = record p {
  flush = true;
  state = get_inst;
  pc = 0;
  out = out_reset;
  stack = [];
  up = [];
  down = [];
}

unfoldable pub new : IecProc
new = reset (record {
  code = λ a. 0;
  enabled = false;
  pc = 0;
  state = get_inst;
  instr = 0;
  timer = 0xfff;
  timer_done = false;
  out = out_reset;
  valid = false;
  ctrl = false;
  timeout = false;
  stack = [];
  atn_prev = true;
  up = [];
  down = [];
  flush = true;
  irq_status = false;
  irq_enable = false;
})

-- The lines that the engine drives, 1 for released.
unfoldable pub drivers : IecProc → ℕ
drivers p = bit_and (u8 (p.out / 65536)) 0x0f

unfoldable pub set_data : IecProc → ℕ → IecProc
set_data p v = record p { out = bit_or (bit_and p.out (not32 0xff)) v }
