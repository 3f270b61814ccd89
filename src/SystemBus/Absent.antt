-- ===== src/SystemBus/Absent.antt =====
-- Blocks of the core that are not built, and what answers in their windows.
use ue2_c64u_emulator.Base.{
  ℕ, zero, suc, ◌+◌, ◌-◌, ◌/◌, ◌%◌, ◌^◌, bit_and, bit_or, Bool, true, false, not, ◌&&◌, ◌||◌, ◌==◌,
  leb, bool_eq, if◌then◌else◌, has, not16, Option, some, none, List, [], ◌∷◌, get_or, Memory, store,
}
use ue2_c64u_emulator.SystemBus.IoMap.{io_base, io_size, io_grain, relative}

pub data Block : Type 0 where
  reu : Block
  sampler : Block
  uci : Block
  jtag : Block
  turbo : Block
  apply : Block
  streams : Block
  resid8 : Block
  core : Block

pub data Mode : Type 0 where
  no_ack : Mode
  ack0 : Mode

abbrev pub all : List Block
all = reu ∷ sampler ∷ uci ∷ jtag ∷ turbo ∷ apply ∷ streams ∷ resid8 ∷ core ∷ []

-- `self as u8`
abbrev pub index : Block → ℕ
index reu = 0
index sampler = 1
index uci = 2
index jtag = 3
index turbo = 4
index apply = 5
index streams = 6
index resid8 = 7
index core = 8

abbrev pub core_windows : List (ℕ × ℕ)
core_windows =
    (0x10020000, 0x10024000)
    ∷ (0x10048000, 0x10048100)
    ∷ (0x1004c000, 0x1004d000)
    ∷ (0x10050000, 0x10060000)
    ∷ (0x10060500, 0x10060600)
    ∷ (0x10188000, 0x10190000)
    ∷ (0x101a0000, 0x101b0000)
    ∷ []

abbrev pub windows : Block → List (ℕ × ℕ)
windows sampler = (0x10048000, 0x10048100) ∷ []
windows uci = (0x10044000, 0x10046000) ∷ []
windows core = core_windows
windows _ = []

abbrev pub default_mode : Block → Mode
default_mode b = ack0

abbrev pub bit : Block → ℕ
bit b = 2 ^ index b

abbrev pub is_block : Block → Block → Bool
is_block a b = index a == index b

-- What the command line asked for; a block without a mode has the default one.
pub record AbsentConfig : Type 0 where
  pub blocks : List Block
  pub modes : Block → Option Mode
  pub keep_going : Bool

unfoldable pub contains : List Block → Block → Bool
contains [] b = false
contains (x ∷ xs) b = is_block x b || contains xs b

unfoldable pub config_has : AbsentConfig → Block → Bool
config_has c b = contains c.blocks b

unfoldable pub config_mode : AbsentConfig → Block → Mode
config_mode c b = elim (c.modes b) [ some m ↦ m | none ↦ default_mode b ]

pub record StallCount : Type 0 where
  pub block : Option Block
  pub reads : ℕ
  pub writes : ℕ
  pub first_pc : ℕ

-- The first absent byte that an instruction waits on.
pub record NoAck : Type 0 where
  pub block : Block
  pub addr : ℕ
  pub write : Bool
  pub val : ℕ
  pub pc : ℕ
  pub now : ℕ

pub record AbsentMap : Type 0 where
  pub grains : Memory
  pub on : ℕ
  pub modes : Block → Mode
  pub keep_going : Bool
  pub stalls : ℕ → Option StallCount
  pub sites : List (ℕ × Bool × ℕ)

-- The bit of a block in a run of grains.
unfoldable pub mark_grains : ℕ → ℕ → ℕ → Memory → Memory
mark_grains zero g b grains = grains
mark_grains (suc n) g b grains = mark_grains n (g + 1) b (store grains g (bit_or (grains g) b))

unfoldable pub mark_windows : List (ℕ × ℕ) → ℕ → Memory → Memory
mark_windows [] b grains = grains
mark_windows ((start, end) ∷ ws) b grains =
    let first = (start - io_base) / io_grain in
    mark_windows ws b (mark_grains ((end - io_base) / io_grain - first) first b grains)

unfoldable pub mark_blocks : List Block → Memory → Memory
mark_blocks [] grains = grains
mark_blocks (b ∷ bs) grains = mark_blocks bs (mark_windows (windows b) (bit b) grains)

unfoldable pub set : AbsentMap → Block → Bool → AbsentMap
set m b absent =
    if absent
    then record m { on = bit_or m.on (bit b) }
    else record m { on = bit_and m.on (not16 (bit b)) }

unfoldable pub set_all : AbsentMap → List Block → AbsentMap
set_all m [] = m
set_all m (b ∷ bs) = set_all (set m b true) bs

unfoldable pub new : AbsentConfig → AbsentMap
new cfg =
    set_all
      record {
        grains = mark_blocks all (λ g. 0);
        on = 0;
        modes = config_mode cfg;
        keep_going = cfg.keep_going;
        stalls = λ addr. none;
        sites = [];
      }
      cfg.blocks

unfoldable pub is_absent : AbsentMap → Block → Bool
is_absent m b = has m.on (bit b)

-- Of a 16-bit number, 16 for 0.
unfoldable pub trailing_zeros : ℕ → ℕ → ℕ
trailing_zeros zero n = 0
trailing_zeros (suc w) n = if n % 2 == 1 then 0 else trailing_zeros w (n / 2) + 1

-- The block that answers, and how; the core wins.
unfoldable pub hit : AbsentMap → ℕ → Option (Block × Mode)
hit m addr =
    let rel = relative addr in
    let bits = bit_and (m.grains (rel / io_grain)) m.on in
    let block = if has bits (bit core) then core else get_or all (trailing_zeros 16 bits) core in
    if leb io_size rel then none else if bits == 0 then none else some (block, m.modes block)

abbrev pub is_no_ack : Mode → Bool
is_no_ack no_ack = true
is_no_ack ack0 = false

abbrev pub any_halts : AbsentMap → List Block → Bool
any_halts m [] = false
any_halts m (b ∷ bs) = (is_absent m b && is_no_ack (m.modes b)) || any_halts m bs

unfoldable pub halts : AbsentMap → Bool
halts m = not m.keep_going && any_halts m all

abbrev pub same_site : ℕ × Bool × ℕ → ℕ × Bool × ℕ → Bool
same_site s t = (s.0 == t.0) && bool_eq s.1 t.1 && (s.2 == t.2)

unfoldable pub seen : List (ℕ × Bool × ℕ) → ℕ × Bool × ℕ → Bool
seen [] s = false
seen (t ∷ ts) s = same_site t s || seen ts s

-- Whether this is the first stall of its site.
unfoldable pub count : AbsentMap → NoAck → Bool × AbsentMap
count m s =
    let c : StallCount = elim (m.stalls s.addr) [
      | some c ↦ c
      | none ↦ record { block = some s.block; reads = 0; writes = 0; first_pc = s.pc }
    ] in
    let c' =
      if s.write then record c { writes = c.writes + 1 } else record c { reads = c.reads + 1 } in
    let site : ℕ × Bool × ℕ = (s.addr, s.write, s.pc) in
    (
      not (seen m.sites site),
      record m {
        stalls = λ addr. if addr == s.addr then some c' else m.stalls addr;
        sites = if seen m.sites site then m.sites else site ∷ m.sites;
      },
    )
