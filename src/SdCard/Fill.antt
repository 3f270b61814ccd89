-- ===== src/SdCard/Fill.antt =====
-- Writing sectors: the bytes that follow a start token fill the block, and the last one commits it.
use ue2_c64u_emulator.Base.{
  ℕ, zero, suc, ◌+◌, ◌<◌, ◌≤◌, ◌≡◌, refl, sym, ap, ◌∙◌, arith, Bool, List, [], ◌∷◌, length, Memory,
  store, store_self, store_ne,
}
use ue2_c64u_emulator.SdCard.Card.{
  Phase, write_data, is_command, Card, ImageFile, slice, receive, xfer, take_data,
}
use ue2_c64u_emulator.SdCard.Transfers.{quiet, sends, answers}

-- Bytes stored one after the other.
pub stores : Memory → ℕ → List ℕ → Memory
stores m a [] = m
stores m a (x ∷ xs) = stores (store m a x) (a + 1) xs

stores_below : (m : Memory) (a b : ℕ) (xs : List ℕ) → b < a → stores m a xs b ≡ m b
unfolding stores
stores_below m a b [] h = refl
stores_below m a b (x ∷ xs) h =
    stores_below (store m a x) (a + 1) b xs (omega arith) ∙ store_ne m a x b (omega arith)

slice_above :
    (m : Memory) (a b n : ℕ) (xs : List ℕ) → b + n ≤ a → slice (stores m a xs) b n ≡ slice m b n
unfolding slice
slice_above m a b zero xs h = refl
slice_above m a b (suc n) xs h =
    rw (stores_below m a b xs (omega arith), slice_above m a (b + 1) n xs (omega arith)) refl

-- What was stored is read back.
slice-stores : (m : Memory) (a : ℕ) (xs : List ℕ) → slice (stores m a xs) a (length xs) ≡ xs
unfolding slice stores
slice-stores m a [] = refl
slice-stores m a (x ∷ xs) =
    rw
      (
        stores_below (store m a x) (a + 1) a xs (omega arith),
        store_self m a x,
        slice-stores (store m a x) (a + 1) xs,
      )
      refl

pub sent_sector :
    (m : Memory) (bytes : List ℕ) (k1 k2 : ℕ)
    → length bytes ≡ 512
    → slice (store (store (stores m 0 bytes) 512 k1) 513 k2) 0 512 ≡ bytes
unfolding stores
sent_sector m bytes k1 k2 l =
    slice_above (stores m 0 bytes) 512 0 512 (k1 ∷ k2 ∷ []) (omega arith)
    ∙ ap (slice (stores m 0 bytes) 0) (sym l)
    ∙ slice-stores m 0 bytes

module _ {F : Type 0} (dev : ImageFile F) where
  pub receive-data :
      (c : Card F) (multi : Bool) (n b : ℕ)
      → c.phase ≡ write_data multi n
      → receive dev c b ≡ take_data dev c multi n b
  unfolding receive
  receive-data c multi n b p = ground arith

  pub data_byte :
      (c : Card F) (multi : Bool) (n b : ℕ)
      → c.phase ≡ write_data multi n
      → c.out ≡ []
      → ◌≡◌ {A = ℕ × Card F} (xfer dev c b) (0xff, take_data dev c multi n b)
  data_byte c multi n b p o =
      quiet dev c b (ap is_command p) o ∙ answers dev refl (receive-data c multi n b p)

  pub take_data_more :
      (c : Card F) (multi : Bool) (n b : ℕ)
      → n + 1 < 514
      → take_data dev c multi n b
        ≡ record c { block = store c.block n b; phase = write_data multi (n + 1) }
  unfolding take_data
  take_data_more c multi n b h = ground arith

  pub fill :
      (xs : List ℕ) (c : Card F) (multi : Bool) (n : ℕ)
      → c.phase ≡ write_data multi n
      → c.out ≡ []
      → n + length xs < 514
      → (sends dev xs c).1
        ≡ record c { block = stores c.block n xs; phase = write_data multi (n + length xs) }
  unfolding sends stores
  fill [] c multi n p o h =
      ap (λ (t : Phase). record c { phase = t }) (p ∙ ap (write_data multi) (omega arith))
  fill (x ∷ xs) c multi n p o h =
      let d = record c { block = store c.block n x; phase = write_data multi (n + 1) } in
      ap (λ (t : ℕ × Card F). (sends dev xs t.1).1) (data_byte c multi n x p o)
      ∙ ap (λ (t : Card F). (sends dev xs t).1) (take_data_more c multi n x (omega arith))
      ∙ fill xs d multi (n + 1) refl o (omega arith)
      ∙ ap
          (λ (k : ℕ). record c {
            block = stores (store c.block n x) (n + 1) xs;
            phase = write_data multi k;
          })
          (omega arith)
