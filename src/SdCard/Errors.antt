-- ===== src/SdCard/Errors.antt =====
-- What the card refuses: sectors past its end, sectors that cannot be read, and writes past the end.
use ue2_c64u_emulator.Base.{
  ℕ, ◌+◌, ◌≤◌, ◌<◌, ◌≡◌, ◌⊎◌, inl, inr, refl, ap, ◌∙◌, arith, true, false, bit_and, ◌==◌, none,
  List, [], ◌∷◌, ◌++◌,
}
use ue2_c64u_emulator.SdCard.Card.{
  command, Card, ImageFile, r1_param, run_command, access_command, queue_sector, answer,
}
use ue2_c64u_emulator.SdCard.Transfers.{sends}
use ue2_c64u_emulator.SdCard.Frames.{refill-modes, refill-file}
use ue2_c64u_emulator.SdCard.Read.{command_frame, frame_runs}

module _ {F : Type 0} (dev : ImageFile F) where
  -- The card answers this and stays as it is, between commands.
  pub record Refuses (c d : Card F) (bytes : List ℕ) : Type 0 where
    pub says : d.out ≡ bytes
    pub keeps_file : d.file ≡ c.file
    pub waits : d.phase ≡ command
    pub stops : d.streaming ≡ false

  refuse :
      (d : Card F) (cmd n : ℕ)
      → (cmd ≡ 17) ⊎ (cmd ≡ 18) ⊎ (cmd ≡ 24) ⊎ (cmd ≡ 25)
      → d.idle ≡ false
      → d.sectors ≤ n
      → run_command dev d false cmd n ≡ answer d (r1_param ∷ [])
  unfolding run_command
  refuse d cmd n w i h = ground arith

  unreadable :
      (d : Card F) (n : ℕ)
      → d.idle ≡ false
      → n < d.sectors
      → d.streaming ≡ false
      → dev.read d.file n ≡ none
      → run_command dev d false 17 n
        ≡ record d { lba = n; out = (d.out ++ (0x00 ∷ [])) ++ (0x01 ∷ []) }
  unfolding run_command access_command queue_sector answer
  unreadable d n i h s r = ground arith

  starts_frame :
      (cmd : ℕ)
      → (cmd ≡ 17) ⊎ (cmd ≡ 18) ⊎ (cmd ≡ 24) ⊎ (cmd ≡ 25)
      → ((bit_and (0x40 + cmd) 0xc0 == 0x40) ≡ true) × (bit_and (0x40 + cmd) 0x3f ≡ cmd)
  starts_frame cmd w = elim w [
    | inl e ↦ rw e (refl, refl)
    | inr (inl e) ↦ rw e (refl, refl)
    | inr (inr (inl e)) ↦ rw e (refl, refl)
    | inr (inr (inr e)) ↦ rw e (refl, refl)
  ]

  says_only :
      {c d e : Card F} (bytes : List ℕ)
      → d ≡ e
      → e.out ≡ bytes
      → e.file ≡ c.file
      → e.phase ≡ command
      → e.streaming ≡ false
      → Refuses c d bytes
  says_only bytes q o f p s = rw q record { says = o; keeps_file = f; waits = p; stops = s }

  -- A read or a write, of one block or of many, for a sector past the end of the card: the answer is
  -- "parameter error", the image keeps what it holds, no stream runs and the card
  -- waits for a command.
  pub refused :
      (c : Card F) (cmd n last : ℕ)
      → (cmd ≡ 17) ⊎ (cmd ≡ 18) ⊎ (cmd ≡ 24) ⊎ (cmd ≡ 25)
      → c.phase ≡ command
      → c.idle ≡ false
      → c.app ≡ false
      → c.sectors ≤ n
      → Refuses c (sends dev (command_frame cmd n last) c).1 (r1_param ∷ [])
  unfolding answer
  refused c cmd n last w p i a h =
      says_only (r1_param ∷ [])
        (frame_runs dev c cmd n last p (starts_frame cmd w).0 (starts_frame cmd w).1 a
          ∙ refuse _ cmd n w ((refill-modes dev c).1 ∙ i) (omega (arith, (refill-modes dev c).0)))
        refl (refill-file dev c) refl refl

  -- CMD17 for a sector that the image cannot give: the command is accepted, an error token takes
  -- the place of the data, the image keeps what it holds, and the card waits for a command.
  pub unread :
      (c : Card F) (n last : ℕ)
      → c.phase ≡ command
      → c.idle ≡ false
      → c.app ≡ false
      → n < c.sectors
      → dev.read c.file n ≡ none
      → Refuses c (sends dev (command_frame 17 n last) c).1 (0x00 ∷ 0x01 ∷ [])
  unread c n last p i a h r =
      says_only (0x00 ∷ 0x01 ∷ [])
        (frame_runs dev c 17 n last p refl refl a
          ∙ unreadable _ n ((refill-modes dev c).1 ∙ i) (omega (arith, (refill-modes dev c).0)) refl
              (ap (λ (t : F). dev.read t n) (refill-file dev c) ∙ r))
        refl (refill-file dev c) refl refl
