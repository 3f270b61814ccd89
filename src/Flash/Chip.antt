-- ===== src/Flash/Chip.antt =====
-- The chip: its commands, and the bytes of a frame.
use ue2_c64u_emulator.Base.{
  ℕ, ◌+◌, ◌-◌, ◌*◌, ◌%◌, bit_and, bit_or, Bool, true, false, not, ◌&&◌, ◌||◌, ◌==◌, ltb, leb,
  if◌then◌else◌, from_bool, u32, Option, none, some, List, [], ◌∷◌, get_or, Memory, store,
}

abbrev pub flash_size : ℕ
flash_size = 16777216

abbrev pub addr_mask : ℕ
addr_mask = 16777215

abbrev pub page_size : ℕ
page_size = 0x100

abbrev pub sector_size : ℕ
sector_size = 0x1000

abbrev pub jedec_id : List ℕ
jedec_id = 0x01 ∷ 0x60 ∷ 0x18 ∷ []

abbrev pub factory_uid : List ℕ
factory_uid = 0x55 ∷ 0x45 ∷ 0x32 ∷ 0x43 ∷ 0x36 ∷ 0x34 ∷ 0x55 ∷ 0x01 ∷ []

-- `!x` of a `usize`
abbrev pub not64 : ℕ → ℕ
not64 x = 18446744073709551615 - x

-- The address bytes of an addressed command: three, or four.
unfoldable pub addr_len : ℕ → Option ℕ
addr_len op =
    if op == 0x03 || op == 0x0b || op == 0x02 || op == 0x20 || op == 0x52 || op == 0xd8
    then some 3
    else if op == 0x13 || op == 0x0c || op == 0x12 || op == 0x21 || op == 0x53 || op == 0xdc
    then some 4
    else none

unfoldable pub erase_size : ℕ → Option ℕ
erase_size op =
    if op == 0x20 || op == 0x21
    then some sector_size
    else if op == 0x52 || op == 0x53
    then some 0x8000
    else if op == 0xd8 || op == 0xdc
    then some 0x10000
    else if op == 0x60 || op == 0xc7
    then some flash_size
    else none

-- The array has `flash_size` bytes and the page buffer `page_size`.
pub record Nor : Type 0 where
  pub mem : Memory
  pub wel : Bool
  pub reset_armed : Bool
  pub op : Option ℕ
  pub count : ℕ
  pub addr : ℕ
  pub page_buf : Memory
  pub uid : List ℕ

unfoldable pub erased : Nor
erased = record {
  mem = λ a. 0xff;
  wel = false;
  reset_armed = false;
  op = none;
  count = 0;
  addr = 0;
  page_buf = λ a. 0xff;
  uid = factory_uid;
}

unfoldable pub sr1 : Nor → ℕ
sr1 n = from_bool n.wel * 2

unfoldable pub start_frame : Nor → Nor
start_frame n = record n { op = none; count = 0; addr = 0 }

unfoldable pub read_next : Nor → ℕ × Nor
read_next n = (n.mem (bit_and n.addr addr_mask), record n { addr = u32 (n.addr + 1) })

-- Byte `k` after the address of an addressed command.
unfoldable pub data_byte : Nor → ℕ → ℕ → ℕ → ℕ × Nor
data_byte n op k mosi =
    if op == 0x03 || op == 0x13
    then read_next n
    else if (op == 0x0b || op == 0x0c) && (k == 0)
    then (0xff, n)
    else if op == 0x0b || op == 0x0c
    then read_next n
    else if op == 0x02 || op == 0x12
    then (
      0xff,
      record n {
        page_buf =
            store (if k == 0 then (λ i. 0xff) else n.page_buf)
              ((bit_and n.addr (page_size - 1) + k) % page_size) mosi;
      },
    )
    else (0xff, n)

-- A byte of a frame after its opcode, of a command that takes an address.
unfoldable pub addressed : Nor → ℕ → ℕ → ℕ → ℕ × Nor
addressed n op i mosi = elim (addr_len op) [
  | none ↦ (0xff, n)
  | some len ↦
      if ltb i len
      then (0xff, record n { addr = bit_or (u32 (n.addr * 256)) mosi })
      else data_byte n op (i - len) mosi
]

-- One full-duplex byte inside the open frame, and the answer.
unfoldable pub xfer : Nor → ℕ → ℕ × Nor
xfer n mosi = elim (n.op) [
  | none ↦ (0xff, record n { op = some mosi })
  | some op ↦
      let i = n.count in
      let m = record n { count = n.count + 1 } in
      if op == 0x9f
      then (get_or jedec_id i 0xff, m)
      else if op == 0x05
      then (sr1 m, m)
      else if op == 0x07 || op == 0x35
      then (0x00, m)
      else if op == 0x4b
      then (if ltb i 4 then (0xff, m) else (get_or m.uid (i - 4) 0xff, m))
      else addressed m op i mosi
]

-- The page buffer over its page: programming only clears bits.
unfoldable pub program : Memory → Memory → ℕ → Memory
program mem buf page a =
    if leb page a && ltb a (page + page_size) then bit_and (mem a) (buf (a - page)) else mem a

unfoldable pub fill : Memory → ℕ → ℕ → Memory
fill mem base size a = if leb base a && ltb a (base + size) then 0xff else mem a

-- An erase fills the block that holds the address.
unfoldable pub erase : Nor → Option ℕ → Option (ℕ × ℕ) × Nor
erase n none = (none, n)
erase n (some size) =
    let base = bit_and (bit_and n.addr addr_mask) (not64 (size - 1)) in
    (some (base, base + size), record n { mem = fill n.mem base size; wel = false })

-- The write commands, once the frame's state is taken: the range that changed, if any.
unfoldable pub run_command : Nor → ℕ → ℕ → Bool → Option (ℕ × ℕ) × Nor
run_command n op count armed =
    let alen : ℕ = elim (addr_len op) [ none ↦ 0 | some len ↦ len ] in
    let start = bit_and n.addr addr_mask in
    let page = bit_and start (not64 (page_size - 1)) in
    if (op == 0x06 || op == 0x04 || op == 0x66 || op == 0x99) && not (count == 0)
    then (none, n)
    else if op == 0x06
    then (none, record n { wel = true })
    else if op == 0x04
    then (none, record n { wel = false })
    else if op == 0x66
    then (none, record n { reset_armed = true })
    else if (op == 0x99) && armed
    then (none, record n { wel = false })
    else if (op == 0x02 || op == 0x12) && n.wel && ltb alen count
    then (
      some (page, page + page_size),
      record n { mem = program n.mem n.page_buf page; wel = false },
    )
    else if n.wel && (count == alen)
    then erase n (erase_size op)
    else (none, n)

unfoldable pub end_frame : Nor → Option (ℕ × ℕ) × Nor
end_frame n = elim (n.op) [
  | none ↦ (none, n)
  | some op ↦
      run_command (record n { op = none; count = 0; reset_armed = false }) op n.count n.reset_armed
]
