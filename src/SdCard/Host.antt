-- ===== src/SdCard/Host.antt =====
-- The firmware's SPI block: the select, the clock divider and the checksum of what was sent.
use ue2_c64u_emulator.Base.{
  ℕ, ◌*◌, bit_and, bit_or, Bool, true, false, not, ◌&&◌, ◌==◌, if◌then◌else◌, from_bool, has, u8,
  Option, none, some,
}
use ue2_c64u_emulator.SdCard.Crc.{crc7}
use ue2_c64u_emulator.SdCard.Card
use ue2_c64u_emulator.SdCard.Card.{Card, ImageFile, xfer}

abbrev pub rate_reset : ℕ
rate_reset = 500

pub record SdCard (F : Type 0) : Type 0 where
  pub card : Option (Card F)
  pub rate : ℕ
  pub force_ss : Bool
  pub level_ss : Bool
  pub crc7 : ℕ

module _ {F : Type 0} where
  unfoldable pub with_card : Option (Card F) → SdCard F
  with_card card = record {
    card = card;
    rate = rate_reset;
    force_ss = false;
    level_ss = true;
    crc7 = 0;
  }

  unfoldable pub selected : SdCard F → Bool
  selected s = not (s.force_ss && s.level_ss)

  unfoldable pub switches : SdCard F → Bool → ℕ
  switches s write_protect =
      bit_or (bit_or (bit_or (from_bool write_protect * 8) 0x04) (from_bool s.level_ss * 2))
        (from_bool s.force_ss)

  unfoldable pub sectors : SdCard F → ℕ
  sectors s = elim (s.card) [ none ↦ 0 | some c ↦ c.sectors ]

  unfoldable pub peek8 : SdCard F → ℕ → ℕ
  peek8 s off =
      let r = bit_and off 0x0c in
      elim (s.card) [
        | none ↦ 0
        | some c ↦
            if r == 0x0
            then (if selected s then Card.peek c else 0xff)
            else if r == 0x4
            then u8 s.rate
            else if r == 0x8
            then switches s c.write_protect
            else bit_or (u8 (s.crc7 * 2)) 1
      ]

  unfoldable pub reset : SdCard F → SdCard F
  reset s = record s {
    rate = rate_reset;
    force_ss = false;
    level_ss = true;
    crc7 = 0;
    card = elim (s.card) [ none ↦ none | some c ↦ some (Card.reset c) ];
  }

module _ {F : Type 0} (dev : ImageFile F) where
  -- A byte out, and the byte in; a card that is not selected takes no part.
  unfoldable pub clock_byte : SdCard F → Card F → ℕ → ℕ × SdCard F
  clock_byte s c mosi =
      let t = record s { crc7 = crc7 s.crc7 mosi } in
      if selected s
      then ((xfer dev c mosi).0, record t { card = some (xfer dev c mosi).1 })
      else (0xff, t)

  unfoldable pub read8 : SdCard F → ℕ → ℕ × SdCard F
  read8 s off = elim (s.card) [
    | none ↦ (0, s)
    | some c ↦ if bit_and off 0x0c == 0x0 then clock_byte s c 0xff else (peek8 s off, s)
  ]

  unfoldable pub write_register : SdCard F → ℕ → ℕ → SdCard F
  write_register s r val =
      if r == 0x4
      then record s { rate = bit_or val (bit_and val 0x80 * 2) }
      else if r == 0x8
      then record s { force_ss = has val 0x01; level_ss = has val 0x02 }
      else record s { crc7 = 0 }

  unfoldable pub write8 : SdCard F → ℕ → ℕ → SdCard F
  write8 s off val =
      let r = bit_and off 0x0c in
      elim (s.card) [
        | none ↦ s
        | some c ↦ if r == 0x0 then (clock_byte s c val).1 else write_register s r val
      ]
