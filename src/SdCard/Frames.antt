-- ===== src/SdCard/Frames.antt =====
-- A command frame leads to its execution.
use ue2_c64u_emulator.Base.{
  ℕ, ◌+◌, ◌≡◌, refl, ap, ◌∙◌, arith, true, bit_and, ◌==◌, if_elim, List, [], ◌∷◌, rest, store,
}
use ue2_c64u_emulator.SdCard.Card.{
  command, in_frame, Card, ImageFile, is_command, refill, receive, xfer, start_command, take_frame,
  execute, queue_sector, answer,
}
use ue2_c64u_emulator.SdCard.Transfers.{sends, quiet, answers, xfer_lem}

module _ {F : Type 0} (dev : ImageFile F) where
  pub receive-frame :
      (c : Card F) (n b : ℕ) → c.phase ≡ in_frame n → receive dev c b ≡ take_frame dev c n b
  unfolding receive
  receive-frame c n b p = ground arith

  frame_byte :
      (c : Card F) (n b : ℕ)
      → c.phase ≡ in_frame n
      → c.out ≡ []
      → ◌≡◌ {A = ℕ × Card F} (xfer dev c b) (0xff, take_frame dev c n b)
  frame_byte c n b p o =
      quiet dev c b (ap is_command p) o ∙ answers dev refl (receive-frame c n b p)

  -- The card before the last byte of a frame is executed.
  abbrev pub framed : Card F → ℕ → ℕ → ℕ → ℕ → ℕ → ℕ → Card F
  framed c b0 b1 b2 b3 b4 b5 = record c {
    frame = store (store (store (store (store (store c.frame 0 b0) 1 b1) 2 b2) 3 b3) 4 b4) 5 b5;
    phase = command;
    out = [];
  }

  -- A stream's next block leaves all but the output, the place and the stream itself as they are.
  queue_sector-phase : (c : Card F) → (queue_sector dev c).phase ≡ c.phase
  unfolding queue_sector answer
  queue_sector-phase c = ground arith

  refill-phase : (c : Card F) → (refill dev c).phase ≡ c.phase
  unfolding refill
  refill-phase c = ground (arith, queue_sector-phase c)

  queue_sector-file : (c : Card F) → (queue_sector dev c).file ≡ c.file
  unfolding queue_sector answer
  queue_sector-file c = ground arith

  pub refill-file : (c : Card F) → (refill dev c).file ≡ c.file
  unfolding refill
  refill-file c = ground (arith, queue_sector-file c)

  queue_sector-modes :
      (c : Card F)
      → ((queue_sector dev c).sectors ≡ c.sectors)
        × ((queue_sector dev c).idle ≡ c.idle)
        × ((queue_sector dev c).app ≡ c.app)
  unfolding queue_sector answer
  queue_sector-modes c = (ground arith, ground arith, ground arith)

  pub refill-modes :
      (c : Card F)
      → ((refill dev c).sectors ≡ c.sectors)
        × ((refill dev c).idle ≡ c.idle)
        × ((refill dev c).app ≡ c.app)
  unfolding refill
  refill-modes c =
      if_elim (λ (d : Card F). (d.sectors ≡ c.sectors) × (d.idle ≡ c.idle) × (d.app ≡ c.app)) _ _ _
        (queue_sector-modes c) (refl, refl, refl)

  receive-start :
      (c : Card F) (b : ℕ)
      → c.phase ≡ command
      → (bit_and b 0xc0 == 0x40) ≡ true
      → receive dev c b ≡ start_command dev c b
  unfolding receive
  receive-start c b p e = ground arith

  starts :
      (c : Card F) (b : ℕ)
      → c.phase ≡ command
      → (bit_and b 0xc0 == 0x40) ≡ true
      → (xfer dev c b).1 ≡ start_command dev (refill dev c) b
  unfolding start_command
  starts c b p e =
      ap (λ (t : ℕ × Card F). t.1) (xfer_lem dev c (refill dev c) b refl)
      ∙ receive-start (record (refill dev c) { out = rest (refill dev c).out }) b
          (refill-phase c ∙ p) e

  abbrev framing : Card F → ℕ → ℕ → Card F
  framing d n b = record d { frame = store d.frame n b; phase = in_frame (n + 1) }

  frame_on :
      (d : Card F) (n b : ℕ) (bs : List ℕ)
      → d.phase ≡ in_frame n
      → d.out ≡ []
      → (sends dev (b ∷ bs) d).1 ≡ (sends dev bs (take_frame dev d n b)).1
  unfolding sends
  frame_on d n b bs p o = ap (λ (t : ℕ × Card F). (sends dev bs t.1).1) (frame_byte d n b p o)

  -- The bytes that follow the first one of a frame.
  five :
      (d : Card F) (b1 b2 b3 b4 b5 : ℕ)
      → d.phase ≡ in_frame 1
      → d.out ≡ []
      → (sends dev (b1 ∷ b2 ∷ b3 ∷ b4 ∷ b5 ∷ []) d).1
        ≡ execute dev record (framing (framing (framing (framing d 1 b1) 2 b2) 3 b3) 4 b4) {
          frame = store (framing (framing (framing (framing d 1 b1) 2 b2) 3 b3) 4 b4).frame 5 b5;
          phase = command;
        }
  unfolding sends take_frame
  five d b1 b2 b3 b4 b5 p o =
      let d1 = framing d 1 b1 in
      let d2 = framing d1 2 b2 in
      let d3 = framing d2 3 b3 in
      frame_on d 1 b1 (b2 ∷ b3 ∷ b4 ∷ b5 ∷ []) p o
      ∙ frame_on d1 2 b2 (b3 ∷ b4 ∷ b5 ∷ []) refl o
      ∙ frame_on d2 3 b3 (b4 ∷ b5 ∷ []) refl o
      ∙ frame_on d3 4 b4 (b5 ∷ []) refl o
      ∙ frame_on (framing d3 4 b4) 5 b5 [] refl o

  -- A frame of six bytes leads to the execution of its command, whatever was queued or streaming.
  pub frame_lem :
      (c : Card F) (b0 b1 b2 b3 b4 b5 : ℕ)
      → c.phase ≡ command
      → (bit_and b0 0xc0 == 0x40) ≡ true
      → (sends dev (b0 ∷ b1 ∷ b2 ∷ b3 ∷ b4 ∷ b5 ∷ []) c).1
        ≡ execute dev (framed (refill dev c) b0 b1 b2 b3 b4 b5)
  unfolding sends start_command
  frame_lem c b0 b1 b2 b3 b4 b5 p e =
      ap (λ (d : Card F). (sends dev (b1 ∷ b2 ∷ b3 ∷ b4 ∷ b5 ∷ []) d).1) (starts c b0 p e)
      ∙ five (start_command dev (refill dev c) b0) b1 b2 b3 b4 b5 refl refl
