-- ===== src/SdCard/Card.antt =====
-- The card: where it is in the byte stream, its commands, and the sectors of its image.
use ue2_c64u_emulator.Base.{
  ℕ, zero, suc, ◌+◌, ◌-◌, ◌*◌, ◌/◌, min, max, bit_and, bit_or, Bool, true, false, not, ◌&&◌, ◌||◌,
  ◌==◌, ltb, leb, if◌then◌else◌, u8, Option, none, some, List, [], ◌∷◌, ◌++◌, length, rest, get_or,
  Memory, store,
}
use ue2_c64u_emulator.SdCard.Crc.{crc16, with_crc7}

abbrev pub sector_size : ℕ
sector_size = 512

abbrev pub r1_idle : ℕ
r1_idle = 0x01

abbrev pub r1_illegal : ℕ
r1_illegal = 0x04

abbrev pub r1_param : ℕ
r1_param = 0x40

abbrev pub cid : List ℕ
cid =
    0x00 ∷ 0x55 ∷ 0x45 ∷ 0x55 ∷ 0x45 ∷ 0x32 ∷ 0x53 ∷ 0x44 ∷ 0x10 ∷ 0 ∷ 0 ∷ 0 ∷ 0x01 ∷ 0x01 ∷ 0xa1
    ∷ []

-- The image file: a sector, unless reading fails, and a write that tells whether it went well.
pub record ImageFile (F : Type 0) : Type 0 where
  pub read : F → ℕ → Option (List ℕ)
  pub write : F → ℕ → List ℕ → Bool × F

pub data Phase : Type 0 where
  command : Phase
  in_frame : ℕ → Phase
  write_token : (multi : Bool) → Phase
  write_data : (multi : Bool) → ℕ → Phase

abbrev pub is_command : Phase → Bool
is_command command = true
is_command (in_frame n) = false
is_command (write_token multi) = false
is_command (write_data multi n) = false

-- `frame` has 6 bytes and `block` 514.
pub record Card (F : Type 0) : Type 0 where
  pub file : F
  pub sectors : ℕ
  pub write_protect : Bool
  pub idle : Bool
  pub app : Bool
  pub phase : Phase
  pub frame : Memory
  pub lba : ℕ
  pub streaming : Bool
  pub block : Memory
  pub out : List ℕ

-- The bytes of an array from `a` on.
unfoldable pub slice : Memory → ℕ → ℕ → List ℕ
slice m a zero = []
slice m a (suc n) = m a ∷ slice m (a + 1) n

abbrev pub argument : Memory → ℕ
argument f = ((f 1 * 256 + f 2) * 256 + f 3) * 256 + f 4

abbrev pub high_byte : ℕ → ℕ
high_byte n = n / 256

-- `0xFE`, the data, and its checksum.
unfoldable pub data_block : List ℕ → List ℕ
data_block bytes = 0xfe ∷ (bytes ++ (high_byte (crc16 bytes) ∷ u8 (crc16 bytes) ∷ []))

-- The card's size in units of 1024 sectors.
unfoldable pub csd : ℕ → List ℕ
csd sectors =
    let c_size = min (max (sectors / 1024) 1 - 1) 0x3fffff in
    with_crc7 (
      0x40
      ∷ 0x0e
      ∷ 0x00
      ∷ 0x32
      ∷ 0x5b
      ∷ 0x59
      ∷ 0x00
      ∷ bit_and (u8 (c_size / 65536)) 0x3f
      ∷ u8 (c_size / 256)
      ∷ u8 c_size
      ∷ 0x7f
      ∷ 0x80
      ∷ 0x0a
      ∷ 0x40
      ∷ 0x00
      ∷ [])

module _ {F : Type 0} where
  unfoldable pub answer : Card F → List ℕ → Card F
  answer c bytes = record c { out = c.out ++ bytes }

  unfoldable pub reset : Card F → Card F
  reset c = record c { idle = true; app = false; phase = command; streaming = false; out = [] }

  unfoldable pub peek : Card F → ℕ
  peek c = get_or c.out 0 0xff

module _ {F : Type 0} (dev : ImageFile F) where
  -- The next sector as a data block, or an error token, which ends a stream.
  unfoldable pub queue_sector : Card F → Card F
  queue_sector c =
      if leb c.sectors c.lba
      then answer (record c { streaming = false }) (0x08 ∷ [])
      else elim (dev.read c.file c.lba) [
        | some bytes ↦ answer (record c { lba = c.lba + 1 }) (data_block bytes)
        | none ↦ answer (record c { streaming = false }) (0x01 ∷ [])
      ]

  unfoldable pub commit_write : Card F → Card F
  commit_write c =
      let w = dev.write c.file c.lba (slice c.block 0 sector_size) in
      if ltb c.lba c.sectors
      then record c {
        file = w.1;
        lba = c.lba + 1;
        out = c.out ++ ((if w.0 then 0x05 else 0x0d) ∷ []);
      }
      else record c { lba = c.lba + 1; out = c.out ++ (0x0d ∷ []) }

  -- The commands that read or write sectors, within the card.
  unfoldable pub access_command : Card F → ℕ → ℕ → Card F
  access_command c cmd arg =
      let d = answer (record c { lba = arg }) (0x00 ∷ []) in
      if cmd == 17
      then queue_sector d
      else if cmd == 18
      then record d { streaming = true }
      else record d { phase = write_token (cmd == 25) }

  -- A command, once the frame's state is taken: `app` is whether CMD55 came before.
  unfoldable pub run_command : Card F → Bool → ℕ → ℕ → Card F
  run_command c app cmd arg =
      let idle = if c.idle then r1_idle else 0 in
      if cmd == 0
      then answer (record c { idle = true }) (r1_idle ∷ [])
      else if not app && (cmd == 8)
      then answer c (idle ∷ 0x00 ∷ 0x00 ∷ bit_and (u8 (arg / 256)) 0x0f ∷ u8 arg ∷ [])
      else if cmd == 55
      then answer (record c { app = true }) (idle ∷ [])
      else if app && (cmd == 41)
      then answer (record c { idle = false }) (0x00 ∷ [])
      else if not app && (cmd == 58)
      then answer c (idle ∷ (if c.idle then 0x40 else 0xc0) ∷ 0xff ∷ 0x80 ∷ 0x00 ∷ [])
      else if not app && (cmd == 59)
      then answer c (idle ∷ [])
      else if c.idle
      then answer c (bit_or r1_idle r1_illegal ∷ [])
      else if not app && (cmd == 9)
      then answer c (0x00 ∷ data_block (csd c.sectors))
      else if not app && (cmd == 10)
      then answer c (0x00 ∷ data_block (with_crc7 cid))
      else if not app && (cmd == 12)
      then answer c (0xff ∷ 0x00 ∷ [])
      else if not app && (cmd == 13)
      then answer c (0x00 ∷ 0x00 ∷ [])
      else if not app && (cmd == 16)
      then answer c ((if arg == sector_size then 0x00 else r1_param) ∷ [])
      else if not app && (cmd == 17 || cmd == 18 || cmd == 24 || cmd == 25)
      then (if leb c.sectors arg then answer c (r1_param ∷ []) else access_command c cmd arg)
      else if app && (cmd == 23)
      then answer c (0x00 ∷ [])
      else answer c (r1_illegal ∷ [])

  -- Any command ends a stream.
  unfoldable pub execute : Card F → Card F
  execute c =
      run_command (record c { app = false; streaming = false }) c.app (bit_and (c.frame 0) 0x3f)
        (argument c.frame)

  unfoldable pub take_frame : Card F → ℕ → ℕ → Card F
  take_frame c n mosi =
      let d = record c { frame = store c.frame n mosi } in
      if n == 5
      then execute (record d { phase = command })
      else record d { phase = in_frame (n + 1) }

  unfoldable pub take_token : Card F → Bool → ℕ → Card F
  take_token c multi mosi =
      if (mosi == 0xfe) && not multi
      then record c { phase = write_data multi 0 }
      else if (mosi == 0xfc) && multi
      then record c { phase = write_data multi 0 }
      else if (mosi == 0xfd) && multi
      then record c { phase = command }
      else c

  unfoldable pub take_data : Card F → Bool → ℕ → ℕ → Card F
  take_data c multi n mosi =
      let d = record c { block = store c.block n mosi } in
      if ltb (n + 1) 514
      then record d { phase = write_data multi (n + 1) }
      else record (commit_write d) { phase = if multi then write_token multi else command }

  -- A new command drops what was not read, and a pending write.
  unfoldable pub start_command : Card F → ℕ → Card F
  start_command c mosi = record c { out = []; frame = store c.frame 0 mosi; phase = in_frame 1 }

  unfoldable pub receive : Card F → ℕ → Card F
  receive c mosi =
      let starts = bit_and mosi 0xc0 == 0x40 in
      elim (c.phase) [
        | command ↦ if starts then start_command c mosi else c
        | in_frame n ↦ take_frame c n mosi
        | write_token multi ↦ if starts then start_command c mosi else take_token c multi mosi
        | write_data multi n ↦ take_data c multi n mosi
      ]

  -- A block is generated when a stream's output has run dry.
  unfoldable pub refill : Card F → Card F
  refill c = if (length c.out == 0) && c.streaming && is_command c.phase then queue_sector c else c

  unfoldable pub xfer : Card F → ℕ → ℕ × Card F
  xfer c mosi =
      let d = refill c in (get_or d.out 0 0xff, receive (record d { out = rest d.out }) mosi)
