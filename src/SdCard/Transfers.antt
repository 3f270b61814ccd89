-- ===== src/SdCard/Transfers.antt =====
-- Runs of bytes: the answers in order, and what is queued comes out as it is.
use ue2_c64u_emulator.Base.{
  ℕ, ◌≡◌, refl, sym, ap, ◌∙◌, arith, false, bit_and, ◌==◌, List, [], ◌∷◌, ◌++◌, length, replicate,
  rest, get_or,
}
use ue2_c64u_emulator.SdCard.Card.{command, Card, ImageFile, is_command, refill, receive, xfer}

module _ {F : Type 0} (dev : ImageFile F) where
  -- Bytes with the card selected, and the answers.
  unfoldable pub sends : List ℕ → Card F → List ℕ × Card F
  sends [] c = ([], c)
  sends (b ∷ bs) c = let r = xfer dev c b in let more = sends bs r.1 in (r.0 ∷ more.0, more.1)

  pub sends_on :
      (b : ℕ) (bs : List ℕ) (c : Card F) {d e : Card F} {v : ℕ} {vs : List ℕ}
      → ◌≡◌ {A = ℕ × Card F} (xfer dev c b) (v, d)
      → ◌≡◌ {A = List ℕ × Card F} (sends bs d) (vs, e)
      → ◌≡◌ {A = List ℕ × Card F} (sends (b ∷ bs) c) (v ∷ vs, e)
  unfolding sends
  sends_on b bs c p q = rw (p, q) refl

  pub sends-append :
      (xs ys : List ℕ) (c : Card F)
      → ◌≡◌ {A = List ℕ × Card F}
          (sends (xs ++ ys) c)
          ((sends xs c).0 ++ (sends ys (sends xs c).1).0, (sends ys (sends xs c).1).1)
  unfolding sends
  sends-append [] ys c = refl
  sends-append (x ∷ xs) ys c = sends_on x (xs ++ ys) c refl (sends-append xs ys (xfer dev c x).1)

  pub refill_unread : (c : Card F) (x : ℕ) (xs : List ℕ) → c.out ≡ x ∷ xs → refill dev c ≡ c
  unfolding refill
  refill_unread c x xs o = ground (arith, ap length o)

  pub refill_busy : (c : Card F) → is_command c.phase ≡ false → refill dev c ≡ c
  unfolding refill
  refill_busy c p = ground arith

  pub xfer_lem :
      (c d : Card F) (b : ℕ)
      → refill dev c ≡ d
      → ◌≡◌ {A = ℕ × Card F}
          (xfer dev c b)
          (get_or d.out 0 0xff, receive dev (record d { out = rest d.out }) b)
  unfolding xfer
  xfer_lem c d b e = rw e refl

  receive-idle :
      (c : Card F) (b : ℕ)
      → c.phase ≡ command
      → (bit_and b 0xc0 == 0x40) ≡ false
      → receive dev c b ≡ c
  unfolding receive
  receive-idle c b p e = ground arith

  pub answers : {a b : ℕ} {c d : Card F} → a ≡ b → c ≡ d → ◌≡◌ {A = ℕ × Card F} (a, c) (b, d)
  answers p q = rw (p, q) refl

  drain_one :
      (c : Card F) (x : ℕ) (xs : List ℕ)
      → c.phase ≡ command
      → c.out ≡ x ∷ xs
      → ◌≡◌ {A = ℕ × Card F} (xfer dev c 0xff) (x, record c { out = xs })
  drain_one c x xs p o =
      xfer_lem c c 0xff (refill_unread c x xs o)
      ∙ answers (ap (λ (t : List ℕ). get_or t 0 0xff) o) (
          ap (λ (t : List ℕ). receive dev (record c { out = rest t }) 0xff) o
          ∙ receive-idle (record c { out = xs }) 0xff p refl)

  -- What is queued comes out in order, whether a stream runs or not.
  pub drain :
      (xs : List ℕ) (c : Card F)
      → c.phase ≡ command
      → c.out ≡ xs
      → ◌≡◌ {A = List ℕ × Card F} (sends (replicate (length xs) 0xff) c) (xs, record c { out = [] })
  unfolding sends
  drain [] c p o = rw⁻¹ o refl
  drain (x ∷ xs) c p o =
      sends_on 0xff (replicate (length xs) 0xff) c (drain_one c x xs p o)
        (drain xs (record c { out = xs }) p refl)

  -- A byte to a card that has nothing to say and expects no command.
  pub quiet :
      (c : Card F) (b : ℕ)
      → is_command c.phase ≡ false
      → c.out ≡ []
      → ◌≡◌ {A = ℕ × Card F} (xfer dev c b) (0xff, receive dev c b)
  quiet c b p o =
      xfer_lem c c b (refill_busy c p)
      ∙ answers (ap (λ (t : List ℕ). get_or t 0 0xff) o)
          (ap (λ (t : List ℕ). receive dev (record c { out = t }) b) (ap rest o ∙ sym o))
