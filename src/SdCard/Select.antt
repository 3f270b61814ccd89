-- ===== src/SdCard/Select.antt =====
-- The SPI block and the card together: what the firmware writes reaches a selected card only.
use ue2_c64u_emulator.Base.{
  ℕ, ◌*◌, ◌≡◌, ◌⊎◌, inl, inr, refl, ap, ◌∙◌, arith, true, false, bit_or, u8, Option, some, none,
  List, [], ◌∷◌, ◌++◌,
}
use ue2_c64u_emulator.SdCard.Crc.{crc7_from, crc7, with_crc7}
use ue2_c64u_emulator.SdCard.Card.{Card, ImageFile, xfer}
use ue2_c64u_emulator.SdCard.Transfers.{sends}
use ue2_c64u_emulator.SdCard.Host.{
  SdCard, clock_byte, write8, read8, write_register, peek8, selected,
}

module _ {F : Type 0} (dev : ImageFile F) where
  -- Bytes written to the data register, one after the other.
  unfoldable pub writes : SdCard F → List ℕ → SdCard F
  writes s [] = s
  writes s (b ∷ bs) = writes (write8 dev s 0 b) bs

  -- The block after these bytes.
  abbrev after : SdCard F → Card F → List ℕ → SdCard F
  after s c bs = record s { card = some (sends dev bs c).1; crc7 = crc7_from s.crc7 bs }

  write_data :
      (s : SdCard F) (c : Card F) (b : ℕ)
      → s.card ≡ some c
      → selected s ≡ true
      → write8 dev s 0 b ≡ record s { card = some (xfer dev c b).1; crc7 = crc7 s.crc7 b }
  unfolding write8 clock_byte
  write_data s c b e h = ground arith

  writes-sends :
      (bs : List ℕ) (s : SdCard F) (c : Card F)
      → s.card ≡ some c
      → selected s ≡ true
      → writes s bs ≡ after s c bs
  unfolding writes sends crc7_from selected
  writes-sends [] s c e h = ap (λ (t : Option (Card F)). record s { card = t }) e
  writes-sends (b ∷ bs) s c e h =
      ap (λ (t : SdCard F). writes t bs) (write_data s c b e h)
      ∙ writes-sends bs (record s { card = some (xfer dev c b).1; crc7 = crc7 s.crc7 b })
          (xfer dev c b).1 refl h

  clears :
      (s : SdCard F) (c : Card F) (v : ℕ)
      → s.card ≡ some c
      → write8 dev s 0xc v ≡ record s { crc7 = 0 }
  unfolding write8 write_register
  clears s c v e = ground arith

  reads_crc :
      (s : SdCard F) (c : Card F) → s.card ≡ some c → peek8 s 0xc ≡ bit_or (u8 (s.crc7 * 2)) 1
  unfolding peek8
  reads_crc s c e = ground arith

  -- With a selected card: when the checksum has been cleared and bytes have been written to the data register, the
  -- card has received exactly these bytes, and the checksum register holds the byte that
  -- completes them to a frame with a valid CRC7.
  pub crc7_register :
      (s : SdCard F) (c : Card F) (v : ℕ) (bs : List ℕ)
      → s.card ≡ some c
      → selected s ≡ true
      → let t = writes (write8 dev s 0xc v) bs in
        (t.card ≡ some (sends dev bs c).1) × (bs ++ (peek8 t 0xc ∷ []) ≡ with_crc7 bs)
  unfolding with_crc7 selected
  crc7_register s c v bs e h =
      let done =
        ap (λ (t : SdCard F). writes t bs) (clears s c v e)
        ∙ writes-sends bs (record s { crc7 = 0 }) c e h in
      (
        ap (λ (t : SdCard F). t.card) done,
        ap (λ (t : SdCard F). bs ++ (peek8 t 0xc ∷ [])) done
            ∙ ap (λ (t : ℕ). bs ++ (t ∷ []))
                (reads_crc (after (record s { crc7 = 0 }) c bs) _ refl),
      )

  -- A card that is not selected sees nothing of what the firmware reads and writes, and the data
  -- register reads 0xFF; without a card every register reads 0 and a write changes nothing.
  pub unselected :
      (s : SdCard F) (off val : ℕ)
      → ((c : Card F) × (s.card ≡ some c) × (selected s ≡ false)) ⊎ (s.card ≡ none)
      → ((write8 dev s off val).card ≡ s.card)
        × ((read8 dev s off).1.card ≡ s.card)
        × ((read8 dev s 0).0 ≡ (elim (s.card) [ some c ↦ 0xff | none ↦ 0 ]))
  unfolding write8 read8 clock_byte write_register
  unselected s off val (inl (c, e, h)) = (ground arith, ground arith, ground arith)
  unselected s off val (inr e) = (ground arith, ground arith, ground arith)
