-- ===== src/SdCard/Write.antt =====
-- CMD24 and CMD25: a block reaches the image as it was sent, and the response tells how it went.
use ue2_c64u_emulator.Base.{
  ℕ, ◌+◌, ◌<◌, ◌≡◌, refl, ap, ◌∙◌, arith, Bool, true, false, lt→ltb, ◌⊎◌, ◌==◌, if◌then◌else◌, List,
  [], ◌∷◌, ◌++◌, length, rest, get_or, store,
}
use ue2_c64u_emulator.SdCard.Card.{
  command, write_token, write_data, is_command, Card, ImageFile, slice, receive, xfer, take_data,
  take_token, commit_write, run_command, access_command, answer,
}
use ue2_c64u_emulator.SdCard.Transfers.{quiet, sends, sends-append, refill_busy, xfer_lem, answers}
use ue2_c64u_emulator.SdCard.Fill.{stores, sent_sector, data_byte, take_data_more, fill}

abbrev pub token : Bool → ℕ
token true = 0xfc
token false = 0xfe

-- A block as the host sends it: its start token, 512 bytes, and two of a checksum.
abbrev pub sent_block : Bool → List ℕ → ℕ → ℕ → List ℕ
sent_block multi bytes k1 k2 = token multi ∷ bytes ++ (k1 ∷ k2 ∷ [])

-- Accepted, or a write error.
abbrev pub response : Bool → ℕ
response ok = if ok then 0x05 else 0x0d

module _ {F : Type 0} (dev : ImageFile F) where
  receive-token :
      (c : Card F) (multi : Bool)
      → c.phase ≡ write_token multi
      → receive dev c (token multi) ≡ record c { phase = write_data multi 0 }
  unfolding receive take_token
  receive-token c true p = ground arith
  receive-token c false p = ground arith

  token_byte :
      (c : Card F) (multi : Bool)
      → c.phase ≡ write_token multi
      → c.out ≡ []
      → ◌≡◌ {A = ℕ × Card F}
          (xfer dev c (token multi))
          (0xff, record c { phase = write_data multi 0 })
  token_byte c multi p o =
      quiet dev c (token multi) (ap is_command p) o ∙ answers dev refl (receive-token c multi p)

  -- The card once a block has been written.
  abbrev pub written : Card F → Bool → List ℕ → ℕ → ℕ → Card F
  written c multi bytes k1 k2 = record c {
    file = (dev.write c.file c.lba bytes).1;
    lba = c.lba + 1;
    block = store (store (stores c.block 0 bytes) 512 k1) 513 k2;
    phase = if multi then write_token multi else command;
    out = response (dev.write c.file c.lba bytes).0 ∷ [];
  }

  commit_write_lem :
      (d : Card F) (bytes : List ℕ)
      → slice d.block 0 512 ≡ bytes
      → d.lba < d.sectors
      → d.out ≡ []
      → commit_write dev d ≡ record d {
        file = (dev.write d.file d.lba bytes).1;
        lba = d.lba + 1;
        out = response (dev.write d.file d.lba bytes).0 ∷ [];
      }
  unfolding commit_write
  commit_write_lem d bytes e h o = rw (e, lt→ltb _ _ h, o) refl

  commit :
      (d : Card F) (multi : Bool) (bytes : List ℕ) (k1 k2 : ℕ)
      → length bytes ≡ 512
      → d.lba < d.sectors
      → d.out ≡ []
      → take_data dev
          (record d { block = store (stores d.block 0 bytes) 512 k1; phase = write_data multi 513 })
          multi
          513
          k2
        ≡ written d multi bytes k1 k2
  unfolding take_data
  commit d multi bytes k1 k2 l h o =
      ap (λ (t : Card F). record t { phase = if multi then write_token multi else command })
        (commit_write_lem
          (record d {
            block = store (store (stores d.block 0 bytes) 512 k1) 513 k2;
            phase = write_data multi 513;
          })
          bytes (sent_sector d.block bytes k1 k2 l) h o)

  -- The two bytes of the checksum.
  checksum_on :
      (c : Card F) (multi : Bool) (bytes : List ℕ) (k1 k2 : ℕ)
      → c.out ≡ []
      → length bytes ≡ 512
      → c.lba < c.sectors
      → (sends dev
          (k1 ∷ k2 ∷ [])
          (record c { block = stores c.block 0 bytes; phase = write_data multi 512 })).1
        ≡ written c multi bytes k1 k2
  unfolding sends
  checksum_on c multi bytes k1 k2 o l h =
      let d = record c { block = stores c.block 0 bytes; phase = write_data multi 512 } in
      let e = record d { block = store d.block 512 k1; phase = write_data multi 513 } in
      ap (λ (t : ℕ × Card F). (xfer dev t.1 k2).1) (data_byte dev d multi 512 k1 refl o)
      ∙ ap (λ (t : Card F). (xfer dev t k2).1) (take_data_more dev d multi 512 k1 (omega arith))
      ∙ ap (λ (t : ℕ × Card F). t.1) (data_byte dev e multi 513 k2 refl o)
      ∙ commit c multi bytes k1 k2 l h o

  pub write_one :
      (c : Card F) (multi : Bool) (bytes : List ℕ) (k1 k2 : ℕ)
      → c.phase ≡ write_token multi
      → c.out ≡ []
      → length bytes ≡ 512
      → c.lba < c.sectors
      → (sends dev (sent_block multi bytes k1 k2) c).1 ≡ written c multi bytes k1 k2
  unfolding sends
  write_one c multi bytes k1 k2 p o l h =
      let d = record c { phase = write_data multi 0 } in
      ap (λ (t : ℕ × Card F). (sends dev (bytes ++ (k1 ∷ k2 ∷ [])) t.1).1) (token_byte c multi p o)
      ∙ ap (λ (t : List ℕ × Card F). t.1) (sends-append dev bytes (k1 ∷ k2 ∷ []) d)
      ∙ ap (λ (t : Card F). (sends dev (k1 ∷ k2 ∷ []) t).1)
          (fill dev bytes d multi 0 refl o (omega arith)
            ∙ ap
                (λ (k : ℕ). record d { block = stores c.block 0 bytes; phase = write_data multi k })
                (omega arith))
      ∙ checksum_on c multi bytes k1 k2 o l h

  pub run_write :
      (d : Card F) (cmd n : ℕ)
      → (cmd ≡ 24) ⊎ (cmd ≡ 25)
      → d.idle ≡ false
      → n < d.sectors
      → run_command dev d false cmd n
        ≡ record d { lba = n; out = d.out ++ (0x00 ∷ []); phase = write_token (cmd == 25) }
  unfolding run_command access_command answer
  run_write d cmd n w i h = ground arith

  receive-other : (c : Card F) (multi : Bool) → c.phase ≡ write_token multi → receive dev c 0xff ≡ c
  unfolding receive take_token
  receive-other c multi p = ground arith

  -- A byte that is no token and starts no command drains the response.
  pub pause :
      (c : Card F) (multi : Bool) (x : ℕ)
      → c.phase ≡ write_token multi
      → c.out ≡ x ∷ []
      → ◌≡◌ {A = ℕ × Card F} (xfer dev c 0xff) (x, record c { out = [] })
  pause c multi x p o =
      xfer_lem dev c c 0xff (refill_busy dev c (ap is_command p))
      ∙ answers dev (ap (λ (t : List ℕ). get_or t 0 0xff) o) (
          ap (λ (t : List ℕ). receive dev (record c { out = rest t }) 0xff) o
          ∙ receive-other (record c { out = [] }) multi p)
