-- ===== src/SdCard/Stream.antt =====
-- CMD18: block after block, each made when the card's output has run dry.
use mathlib.Core.Path.{subst}
use ue2_c64u_emulator.Base.{
  ℕ, zero, suc, ◌+◌, ◌<◌, ◌≤◌, ◌≡◌, refl, sym, ap, ap₂, ◌∙◌, arith, true, false, some, List, [],
  ◌∷◌, ◌++◌, length, length-append, replicate, All,
}
use ue2_c64u_emulator.SdCard.Card.{
  command, Card, ImageFile, refill, run_command, access_command, queue_sector, answer, data_block,
}
use ue2_c64u_emulator.SdCard.Crc.{IsByte}
use ue2_c64u_emulator.SdCard.Serial.{wire_blocks, data_block_lem}
use ue2_c64u_emulator.SdCard.Transfers.{sends, sends-append, refill_unread, xfer_lem, drain}
use ue2_c64u_emulator.SdCard.Frames.{refill-modes, refill-file}
use ue2_c64u_emulator.SdCard.Read.{command_frame, frame_runs}

-- The blocks as they go over the wire.
stream_bytes : List (List ℕ) → List ℕ
stream_bytes [] = []
stream_bytes (b ∷ bs) = data_block b ++ stream_bytes bs

stream_bytes_lem : (bs : List (List ℕ)) → All (All IsByte) bs → stream_bytes bs ≡ wire_blocks bs
unfolding stream_bytes wire_blocks
stream_bytes_lem [] v = refl
stream_bytes_lem (b ∷ bs) v =
    ap₂ (λ (x y : List ℕ). x ++ y) (data_block_lem b v.0) (stream_bytes_lem bs v.1)

module _ {F : Type 0} (dev : ImageFile F) where
  -- The image holds these sectors from `n` on.
  abbrev pub Stored : F → ℕ → List (List ℕ) → Type 0
  Stored file n [] = Unit {0}
  Stored file n (b ∷ bs) = (dev.read file n ≡ some b) × Stored file (n + 1) bs

  zero_add : (n : ℕ) → 0 + n ≡ n
  zero_add n = omega arith

  suc_add : (m n : ℕ) → suc m + n ≡ suc (m + n)
  suc_add m n = omega arith

  replicate_add : (m n : ℕ) (v : ℕ) → replicate (m + n) v ≡ replicate m v ++ replicate n v
  replicate_add zero n v = rw zero_add
  replicate_add (suc m) n v = rw suc_add (ap (λ (t : List ℕ). v ∷ t) (replicate_add m n v))

  refill_stream :
      (c : Card F) (b : List ℕ)
      → c.phase ≡ command
      → c.out ≡ []
      → c.streaming ≡ true
      → c.lba < c.sectors
      → dev.read c.file c.lba ≡ some b
      → refill dev c ≡ record c { lba = c.lba + 1; out = data_block b }
  unfolding refill queue_sector answer
  refill_stream c b p o s h r = ground (arith, ap length o)

  sends_refilled :
      (c d : Card F) (x : ℕ) (xs : List ℕ)
      → refill dev c ≡ d
      → refill dev d ≡ d
      → sends dev (x ∷ xs) c ≡ sends dev (x ∷ xs) d
  unfolding sends
  sends_refilled c d x xs e f =
      ap (λ (t : ℕ × Card F). after t) (xfer_lem dev c d x e ∙ sym (xfer_lem dev d d x f))
    where
      after : ℕ × Card F → List ℕ × Card F
      after t = (t.0 ∷ (sends dev xs t.1).0, (sends dev xs t.1).1)

  one_block :
      (c : Card F) (b : List ℕ)
      → c.phase ≡ command
      → c.out ≡ []
      → c.streaming ≡ true
      → c.lba < c.sectors
      → dev.read c.file c.lba ≡ some b
      → ◌≡◌ {A = List ℕ × Card F}
          (sends dev (replicate (length (data_block b)) 0xff) c)
          (data_block b, record c { lba = c.lba + 1; out = [] })
  unfolding data_block
  one_block c b p o s h r =
      let d = record c { lba = c.lba + 1; out = data_block b } in
      sends_refilled c d 0xff _ (refill_stream c b p o s h r) (refill_unread dev d _ _ refl)
      ∙ drain dev (data_block b) d p refl

  -- A stream's blocks, from a card whose output has run dry.
  stream_on :
      (bs : List (List ℕ)) (c : Card F)
      → c.phase ≡ command
      → c.out ≡ []
      → c.streaming ≡ true
      → c.lba + length bs ≤ c.sectors
      → Stored c.file c.lba bs
      → (sends dev (replicate (length (stream_bytes bs)) 0xff) c).0 ≡ stream_bytes bs
  unfolding stream_bytes sends
  stream_on [] c p o s h r = refl
  stream_on (b ∷ bs) c p o s h r =
      let n = length (data_block b) in
      let m = length (stream_bytes bs) in
      let d = record c { lba = c.lba + 1; out = [] } in
      ap (λ (t : List ℕ). (sends dev t c).0)
        (ap (λ (k : ℕ). replicate k 0xff) (length-append (data_block b) (stream_bytes bs))
          ∙ replicate_add n m 0xff)
      ∙ ap (λ (t : List ℕ × Card F). t.0) (sends-append dev (replicate n 0xff) (replicate m 0xff) c)
      ∙ ap (λ (t : List ℕ × Card F). t.0 ++ (sends dev (replicate m 0xff) t.1).0)
          (one_block c b p o s (omega arith) r.0)
      ∙ ap (λ (t : List ℕ). data_block b ++ t) (stream_on bs d p refl s (omega arith) r.1)

  run_stream :
      (d : Card F) (n : ℕ)
      → d.idle ≡ false
      → n < d.sectors
      → run_command dev d false 18 n
        ≡ record d { lba = n; out = d.out ++ (0x00 ∷ []); streaming = true }
  unfolding run_command access_command answer
  run_stream d n i h = ground arith

  -- The one byte of the response, and then the blocks.
  respond_on :
      (bs : List (List ℕ)) (c : Card F)
      → c.phase ≡ command
      → c.out ≡ 0x00 ∷ []
      → c.streaming ≡ true
      → c.lba + length bs ≤ c.sectors
      → Stored c.file c.lba bs
      → (sends dev (replicate (length (0x00 ∷ stream_bytes bs)) 0xff) c).0 ≡ 0x00 ∷ stream_bytes bs
  respond_on bs c p o s h r =
      let m = length (stream_bytes bs) in
      ap (λ (t : List ℕ × Card F). t.0) (sends-append dev (0xff ∷ []) (replicate m 0xff) c)
      ∙ ap (λ (t : List ℕ × Card F). t.0 ++ (sends dev (replicate m 0xff) t.1).0)
          (drain dev (0x00 ∷ []) c p o)
      ∙ ap (λ (t : List ℕ). 0x00 ∷ t) (stream_on bs (record c { out = [] }) p refl s h r)

  -- CMD18 from a sector on: after the response 0x00 the card sends every block in order, each as the start
  -- token 0xFE, the block's bytes, and its checksum, that of a serial CRC16 register, for as many
  -- blocks as are clocked out and lie on the card.
  pub stream_lem :
      (c : Card F) (n last : ℕ) (bs : List (List ℕ))
      → c.phase ≡ command
      → c.idle ≡ false
      → c.app ≡ false
      → n < c.sectors
      → n + length bs ≤ c.sectors
      → Stored c.file n bs
      → All (All IsByte) bs
      → let d = (sends dev (command_frame 18 n last) c).1 in
        let reply = 0x00 ∷ wire_blocks bs in (sends dev (replicate (length reply) 0xff) d).0 ≡ reply
  stream_lem c n last bs p i a h k r v =
      let ready =
        frame_runs dev c 18 n last p refl refl a
        ∙ run_stream _ n ((refill-modes dev c).1 ∙ i) (omega (arith, (refill-modes dev c).0)) in
      let d = (sends dev (command_frame 18 n last) c).1 in
      subst (λ (t : List ℕ). (sends dev (replicate (length (0x00 ∷ t)) 0xff) d).0 ≡ 0x00 ∷ t)
        (stream_bytes_lem bs v)
        (ap (λ (d : Card F). (sends dev (replicate (length (0x00 ∷ stream_bytes bs)) 0xff) d).0)
            ready
          ∙ respond_on bs _ refl refl refl (omega (arith, (refill-modes dev c).0))
              (rw (refill-file dev c) r))
