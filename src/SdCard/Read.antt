-- ===== src/SdCard/Read.antt =====
-- Reading sectors: one block for CMD17, block after block for CMD18.
use ue2_c64u_emulator.Base.{
  ℕ, ◌+◌, ◌/◌, ◌%◌, ◌<◌, ◌≡◌, refl, ap, ◌∙◌, arith, Bool, true, false, bit_and, ◌==◌, some, List,
  [], ◌∷◌, ◌++◌, length, replicate, store,
}
use ue2_c64u_emulator.SdCard.Card.{
  command, Card, ImageFile, refill, execute, run_command, access_command, queue_sector, answer,
  data_block,
}
use ue2_c64u_emulator.SdCard.Transfers.{sends, drain}
use ue2_c64u_emulator.SdCard.Frames.{frame_lem, framed, refill-modes, refill-file}

-- A command frame: the command, its argument, and a byte that the card does not check.
abbrev pub command_frame : ℕ → ℕ → ℕ → List ℕ
command_frame cmd n last =
    (0x40 + cmd) ∷ n / 16777216 ∷ n / 65536 % 256 ∷ n / 256 % 256 ∷ n % 256 ∷ last ∷ []

module _ {F : Type 0} (dev : ImageFile F) where
  same_command :
      (d : Card F) {app : Bool} {x cmd m n : ℕ}
      → app ≡ false
      → x ≡ cmd
      → m ≡ n
      → run_command dev d app x m ≡ run_command dev d false cmd n
  same_command d p q r = rw (p, q, r) refl

  -- What the card does with a frame: `d` is the card before it, with the output dropped.
  pub frame_runs :
      (c : Card F) (cmd n last : ℕ)
      → c.phase ≡ command
      → (bit_and (0x40 + cmd) 0xc0 == 0x40) ≡ true
      → bit_and (0x40 + cmd) 0x3f ≡ cmd
      → c.app ≡ false
      → (sends dev (command_frame cmd n last) c).1
        ≡ run_command dev
            (record (framed dev
              (refill dev c)
              (0x40 + cmd)
              (n / 16777216)
              (n / 65536 % 256)
              (n / 256 % 256)
              (n % 256)
              last) { app = false; streaming = false })
            false
            cmd
            n
  unfolding execute store
  frame_runs c cmd n last p e m a =
      frame_lem dev c (0x40 + cmd) (n / 16777216) (n / 65536 % 256) (n / 256 % 256) (n % 256) last p
        e
      ∙ same_command _ ((refill-modes dev c).2 ∙ a) m (omega arith)

  run_read :
      (d : Card F) (n : ℕ) (bytes : List ℕ)
      → d.idle ≡ false
      → n < d.sectors
      → dev.read d.file n ≡ some bytes
      → run_command dev d false 17 n
        ≡ record d { lba = n + 1; out = (d.out ++ (0x00 ∷ [])) ++ data_block bytes }
  unfolding run_command access_command queue_sector answer
  run_read d n bytes i h r = ground arith

  pub out_lem : {c d : Card F} → c ≡ d → c.out ≡ d.out
  out_lem e = ap (λ (t : Card F). t.out) e

  -- CMD17 for a sector of the card that can be read: the card answers 0x00, the token 0xFE, the
  -- sector and its CRC16, whatever was queued or streaming before, and waits for a command.
  pub read_block :
      (c : Card F) (n last : ℕ) (bytes : List ℕ)
      → c.phase ≡ command
      → c.idle ≡ false
      → c.app ≡ false
      → n < c.sectors
      → dev.read c.file n ≡ some bytes
      → let d = (sends dev (command_frame 17 n last) c).1 in
        let reply = 0x00 ∷ data_block bytes in
        ((sends dev (replicate (length reply) 0xff) d).0 ≡ reply)
        × ((sends dev (replicate (length reply) 0xff) d).1.out ≡ [])
        × (d.phase ≡ command)
        × (d.file ≡ c.file)
  read_block c n last bytes p i a h r =
      let ready =
        frame_runs c 17 n last p refl refl a
        ∙ run_read _ n bytes ((refill-modes dev c).1 ∙ i) (omega (arith, (refill-modes dev c).0))
            (ap (λ (t : F). dev.read t n) (refill-file dev c) ∙ r) in
      let drained =
        drain dev (0x00 ∷ data_block bytes) _ (ap (λ (t : Card F). t.phase) ready)
          (out_lem ready) in
      (
        ap (λ (t : List ℕ × Card F). t.0) drained,
        ap (λ (t : List ℕ × Card F). t.1.out) drained,
        ap (λ (t : Card F). t.phase) ready,
        ap (λ (t : Card F). t.file) ready ∙ refill-file dev c,
      )
