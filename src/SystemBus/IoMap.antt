-- ===== src/SystemBus/IoMap.antt =====
-- Decode of the I/O window at a grain of 256 bytes, and the devices behind it.
use ue2_c64u_emulator.Base.{
  ℕ, zero, suc, ◌+◌, ◌-◌, ◌/◌, ◌%◌, Bool, ◌&&◌, ◌==◌, leb, ltb, if◌then◌else◌, u16, u32, Option,
  some, none, List, [], ◌∷◌, ◌++◌, length, get_elem?, Memory, store,
}
use ue2_c64u_emulator.Irq.{IrqState}

abbrev pub io_base : ℕ
io_base = 0x10000000

abbrev pub io_size : ℕ
io_size = 0x01000000

abbrev pub io_grain : ℕ
io_grain = 0x100

-- What a device is handed on an access or a tick.
pub record IoCtx : Type 0 where
  pub now : ℕ
  pub pc : ℕ
  pub ram : Memory
  pub irq : IrqState
  pub console : List ℕ
  pub stall : ℕ

-- `trait IoDevice`: `D` is the state of a device of any kind.
pub record IoDevice (D : Type 0) : Type 0 where
  pub read8 : D → ℕ → IoCtx → ℕ × D × IoCtx
  pub write8 : D → ℕ → ℕ → IoCtx → D × IoCtx
  pub next_event : D → Option ℕ
  pub tick : D → IoCtx → D × IoCtx

pub record Window : Type 0 where
  pub base : ℕ
  pub dev : ℕ

-- A grain holds the number of its window and 1 more; 0 is unmapped.
pub record IoMap (D : Type 0) : Type 0 where
  pub grains : Memory
  pub windows : List Window
  pub devices : List D

-- The grains from `g` on take the window `w`; `none` when one of them is taken.
unfoldable pub claim_grains : ℕ → ℕ → ℕ → Memory → Option Memory
claim_grains zero g w grains = some grains
claim_grains (suc n) g w grains =
    let more = claim_grains n (g + 1) w (store grains g w) in if grains g == 0 then more else none

-- The assertions on a window's place.
abbrev pub fits : ℕ → ℕ → ℕ → Bool
fits base size origin =
    leb origin base
    && (leb io_base base
        && ltb 0 size
        && ltb (base + size) 0x100000000
        && leb (base + size) (io_base + io_size))
    && (base % io_grain == 0)
    && (size % io_grain == 0)

-- `addr.wrapping_sub(IO_BASE)`
abbrev pub relative : ℕ → ℕ
relative addr = u32 (addr + 0xf0000000)

module _ {D : Type 0} where
  unfoldable pub new : IoMap D
  new = record { grains = λ g. 0; windows = []; devices = [] }

  -- `none` is a failed assertion.
  unfoldable pub map_origin : IoMap D → ℕ → ℕ → ℕ → ℕ → Option (IoMap D)
  map_origin m base size dev origin =
      let w = u16 (length m.windows + 1) in
      let n = (base + size - io_base) / io_grain - (base - io_base) / io_grain in
      if fits base size origin
      then elim (claim_grains n ((base - io_base) / io_grain) w m.grains) [
        | some grains ↦ some record m {
          grains = grains;
          windows = m.windows ++ (record { base = origin; dev = dev } ∷ []);
        }
        | none ↦ none
      ]
      else none

  unfoldable pub map : IoMap D → ℕ → ℕ → ℕ → Option (IoMap D)
  map m base size dev = map_origin m base size dev base

  -- The index of the new device, and the map.
  unfoldable pub add : IoMap D → ℕ → ℕ → D → Option (ℕ × IoMap D)
  add m base size dev =
      let idx = length m.devices in
      elim (map (record m { devices = m.devices ++ (dev ∷ []) }) base size idx) [
        | some m' ↦ some (idx, m')
        | none ↦ none
      ]

  -- The device and the offset within its window. A grain's window exists, so the inner `none` is
  -- not reached.
  unfoldable pub resolve : IoMap D → ℕ → Option (ℕ × ℕ)
  resolve m addr =
      let rel = relative addr in
      let grain = m.grains (rel / io_grain) in
      if leb io_size rel
      then none
      else if grain == 0
      then none
      else elim (get_elem? m.windows (grain - 1)) [
        | some w ↦ some (w.dev, addr - w.base)
        | none ↦ none
      ]
