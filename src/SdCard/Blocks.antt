-- ===== src/SdCard/Blocks.antt =====
-- Whole transfers: a block written and read back, and a run of blocks written with CMD25.
use mathlib.Core.Path.{subst}
use ue2_c64u_emulator.Base.{
  ℕ, ◌+◌, ◌%◌, ◌/◌, ◌<◌, ◌≤◌, ◌≡◌, inl, inr, refl, ap, ◌∙◌, arith, Bool, true, false, if◌then◌else◌,
  some, List, [], ◌∷◌, ◌++◌, length, replicate, All,
}
use ue2_c64u_emulator.SdCard.Card.{
  command, write_token, is_command, Card, ImageFile, refill, receive, take_token,
}
use ue2_c64u_emulator.SdCard.Crc.{IsByte}
use ue2_c64u_emulator.SdCard.Serial.{wire_block, data_block_lem}
use ue2_c64u_emulator.SdCard.Transfers.{quiet, sends, sends-append}
use ue2_c64u_emulator.SdCard.Frames.{framed, refill-modes, refill-file}
use ue2_c64u_emulator.SdCard.Read.{command_frame, frame_runs, read_block}
use ue2_c64u_emulator.SdCard.Write.{sent_block, response, written, write_one, run_write, pause}

module _ {F : Type 0} (dev : ImageFile F) where
  abbrev write_command : Bool → ℕ
  write_command multi = if multi then 25 else 24

  -- The card when it has taken CMD24 or CMD25 and the host has read its response.
  abbrev begun : Card F → Bool → ℕ → ℕ → Card F
  begun c multi n last =
      record (framed dev (refill dev c) (0x40 + write_command multi) (n / 16777216)
        (n / 65536 % 256) (n / 256 % 256) (n % 256) last) {
          app = false;
          streaming = false;
          lba = n;
          out = [];
          phase = write_token multi;
        }

  begins :
      (c : Card F) (multi : Bool) (n last : ℕ)
      → c.phase ≡ command
      → c.idle ≡ false
      → c.app ≡ false
      → n < c.sectors
      → (sends dev (command_frame (write_command multi) n last) c).1
        ≡ record (begun c multi n last) { out = 0x00 ∷ [] }
  begins c true n last p i a h =
      frame_runs dev c 25 n last p refl refl a
      ∙ run_write dev _ 25 n (inr refl) ((refill-modes dev c).1 ∙ i)
          (omega (arith, (refill-modes dev c).0))
  begins c false n last p i a h =
      frame_runs dev c 24 n last p refl refl a
      ∙ run_write dev _ 24 n (inl refl) ((refill-modes dev c).1 ∙ i)
          (omega (arith, (refill-modes dev c).0))

  -- The bytes after the command and its response go to the card that has begun.
  begins_on :
      (c : Card F) (multi : Bool) (n last : ℕ) (bs : List ℕ)
      → c.phase ≡ command
      → c.idle ≡ false
      → c.app ≡ false
      → n < c.sectors
      → (sends dev (command_frame (write_command multi) n last ++ (0xff ∷ bs)) c).1
        ≡ (sends dev bs (begun c multi n last)).1
  unfolding sends
  begins_on c multi n last bs p i a h =
      let d = record (begun c multi n last) { out = 0x00 ∷ [] } in
      ap (λ (t : List ℕ × Card F). t.1)
        (sends-append dev (command_frame (write_command multi) n last) (0xff ∷ bs) c)
      ∙ ap (λ (t : Card F). (sends dev (0xff ∷ bs) t).1) (begins c multi n last p i a h)
      ∙ ap (λ (t : ℕ × Card F). (sends dev bs t.1).1) (pause dev d multi 0x00 refl refl)

  -- CMD24 for a sector of the card, the response, and a block of 512 bytes with its token: exactly
  -- that block is written at that sector of the image, the data response tells whether the
  -- write went well, and the card waits for a command.
  pub write_block :
      (c : Card F) (n last : ℕ) (bytes : List ℕ) (k1 k2 : ℕ)
      → c.phase ≡ command
      → c.idle ≡ false
      → c.app ≡ false
      → n < c.sectors
      → length bytes ≡ 512
      → let d =
          (sends dev (command_frame 24 n last ++ (0xff ∷ sent_block false bytes k1 k2)) c).1 in
        (d.file ≡ (dev.write c.file n bytes).1)
        × (d.out ≡ response (dev.write c.file n bytes).0 ∷ [])
        × (d.phase ≡ command)
        × (d.idle ≡ false)
        × (d.app ≡ false)
        × (d.sectors ≡ c.sectors)
  write_block c n last bytes k1 k2 p i a h l =
      let d = begun c false n last in
      let done =
        begins_on c false n last (sent_block false bytes k1 k2) p i a h
        ∙ write_one dev d false bytes k1 k2 refl refl l (omega (arith, (refill-modes dev c).0)) in
      (
        ap (λ (t : Card F). t.file) done
            ∙ ap (λ (t : F). (dev.write t n bytes).1) (refill-file dev c),
        ap (λ (t : Card F). t.out) done
            ∙ ap (λ (t : F). response (dev.write t n bytes).0 ∷ []) (refill-file dev c),
        ap (λ (t : Card F). t.phase) done,
        ap (λ (t : Card F). t.idle) done ∙ (refill-modes dev c).1 ∙ i,
        ap (λ (t : Card F). t.app) done,
        ap (λ (t : Card F). t.sectors) done ∙ (refill-modes dev c).0,
      )

  -- When the image gives back what an accepted write has put there: for a block of 512 bytes that CMD24
  -- wrote with the response "accepted", CMD17 then gets 0x00, the start token 0xFE, the block, and its
  -- checksum, that of a serial CRC16 register, with its high byte first.
  pub read_block-write_block :
      ((f : F) (n : ℕ) (b : List ℕ)
        → (dev.write f n b).0 ≡ true
        → dev.read (dev.write f n b).1 n ≡ some b)
      → (c : Card F) (n last : ℕ) (bytes : List ℕ) (k1 k2 : ℕ) → c.phase ≡ command
      → c.idle ≡ false
      → c.app ≡ false
      → n < c.sectors
      → length bytes ≡ 512
      → All IsByte bytes
      → (dev.write c.file n bytes).0 ≡ true
      → let d =
          (sends dev (command_frame 24 n last ++ (0xff ∷ sent_block false bytes k1 k2)) c).1 in
        let e = (sends dev (command_frame 17 n last) d).1 in
        let reply = 0x00 ∷ wire_block bytes in
        (sends dev (replicate (length reply) 0xff) e).0 ≡ reply
  read_block-write_block law c n last bytes k1 k2 p i a h l v ok =
      let w = write_block c n last bytes k1 k2 p i a h l in
      let d = (sends dev (command_frame 24 n last ++ (0xff ∷ sent_block false bytes k1 k2)) c).1 in
      let e = (sends dev (command_frame 17 n last) d).1 in
      subst (λ (t : List ℕ). (sends dev (replicate (length (0x00 ∷ t)) 0xff) e).0 ≡ 0x00 ∷ t)
        (data_block_lem bytes v)
        (read_block dev d n last bytes w.2 w.3 w.4 (omega (arith, w.5))
          (ap (λ (t : F). dev.read t n) w.0 ∙ law c.file n bytes ok)).0

  -- The image after a run of blocks from sector `n` on.
  pub write_all : F → ℕ → List (List ℕ) → F
  write_all file n [] = file
  write_all file n (b ∷ bs) = write_all (dev.write file n b).1 (n + 1) bs

  -- Each block and a byte to read its response by, and the token that ends the run.
  abbrev pub sent_blocks : List (List ℕ) → ℕ → ℕ → List ℕ
  sent_blocks [] k1 k2 = 0xfd ∷ []
  sent_blocks (b ∷ bs) k1 k2 = sent_block true b k1 k2 ++ (0xff ∷ sent_blocks bs k1 k2)

  abbrev pub IsSector : List ℕ → Type 0
  IsSector b = length b ≡ 512

  -- The run has ended and the image is this one.
  record Ended (d : Card F) (file : F) : Type 0 where
    file_lem : d.file ≡ file
    phase_lem : d.phase ≡ command

  carry : {c d : Card F} (file : F) → c ≡ d → Ended d file → Ended c file
  carry file e h = rw e h

  receive-stop :
      (c : Card F) → c.phase ≡ write_token true → receive dev c 0xfd ≡ record c { phase = command }
  unfolding receive take_token
  receive-stop c p = ground arith

  stops :
      (c : Card F)
      → c.phase ≡ write_token true
      → c.out ≡ []
      → Ended (sends dev (0xfd ∷ []) c).1 c.file
  unfolding sends
  stops c p o =
      carry c.file
        (ap (λ (t : ℕ × Card F). t.1) (quiet dev c 0xfd (ap is_command p) o) ∙ receive-stop c p)
        record { file_lem = refl; phase_lem = refl }

  -- One block of a run, and its response.
  one_of_run :
      (c : Card F) (b more : List ℕ) (k1 k2 : ℕ)
      → c.phase ≡ write_token true
      → c.out ≡ []
      → IsSector b
      → c.lba < c.sectors
      → (sends dev (sent_block true b k1 k2 ++ (0xff ∷ more)) c).1
        ≡ (sends dev more (record (written dev c true b k1 k2) { out = [] })).1
  unfolding sends
  one_of_run c b more k1 k2 p o l h =
      ap (λ (t : List ℕ × Card F). t.1) (sends-append dev (sent_block true b k1 k2) (0xff ∷ more) c)
      ∙ ap (λ (t : Card F). (sends dev (0xff ∷ more) t).1) (write_one dev c true b k1 k2 p o l h)
      ∙ ap (λ (t : ℕ × Card F). (sends dev more t.1).1)
          (pause dev (written dev c true b k1 k2) true _ refl refl)

  run_on :
      (bs : List (List ℕ)) (c : Card F) (k1 k2 : ℕ)
      → c.phase ≡ write_token true
      → c.out ≡ []
      → All IsSector bs
      → c.lba + length bs ≤ c.sectors
      → Ended (sends dev (sent_blocks bs k1 k2) c).1 (write_all c.file c.lba bs)
  unfolding write_all
  run_on [] c k1 k2 p o l h = stops c p o
  run_on (b ∷ bs) c k1 k2 p o l h =
      carry _ (one_of_run c b (sent_blocks bs k1 k2) k1 k2 p o l.0 (omega arith)) (
        run_on bs (record (written dev c true b k1 k2) { out = [] }) k1 k2 refl refl l.1
          (omega arith))

  -- CMD25 from a sector on, a run of blocks with their tokens, and the token that ends it: the
  -- blocks are written in order to the sectors from there on, and the card waits for a command.
  pub write_blocks :
      (c : Card F) (n last : ℕ) (bs : List (List ℕ)) (k1 k2 : ℕ)
      → c.phase ≡ command
      → c.idle ≡ false
      → c.app ≡ false
      → n < c.sectors
      → n + length bs ≤ c.sectors
      → All IsSector bs
      → let d = (sends dev (command_frame 25 n last ++ (0xff ∷ sent_blocks bs k1 k2)) c).1 in
        (d.file ≡ write_all c.file n bs) × (d.phase ≡ command)
  write_blocks c n last bs k1 k2 p i a h r l =
      let e = carry _ (begins_on c true n last (sent_blocks bs k1 k2) p i a h) (
        run_on bs (begun c true n last) k1 k2 refl refl l
          (omega (arith, (refill-modes dev c).0))) in
      (e.file_lem ∙ ap (λ (t : F). write_all t n bs) (refill-file dev c), e.phase_lem)
