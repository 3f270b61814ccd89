-- ===== src/Usb/Exchange.antt =====
-- A command of the mass-storage device from the host's side: its data in packets, and its status.
use ue2_c64u_emulator.Base.{
  ℕ, zero, suc, ◌+◌, ◌-◌, ◌<◌, ◌≤◌, ◌≡◌, refl, sym, ap, ◌∙◌, arith, min, inl, inr, ◌==◌,
  if◌then◌else◌, Bool-cases, List, [], ◌∷◌, ◌++◌, length, length-append, replicate, take, drop,
  take-append-drop, length-take, length-drop, take_all,
}
use ue2_c64u_emulator.Usb.Function.{Reply, ack, packet, nak, stall}
use ue2_c64u_emulator.Usb.Storage.{
  Storage, BlockBackend, data_in, status, Csw, input, resize, ep_in,
}

abbrev pub reply_bytes : Reply → List ℕ
reply_bytes (packet bs) = bs
reply_bytes ack = []
reply_bytes nak = []
reply_bytes stall = []

drop_nil : (n : ℕ) → drop {A = ℕ} n [] ≡ []
drop_nil zero = refl
drop_nil (suc n) = refl

pub drop-drop : (m n : ℕ) (xs : List ℕ) → drop n (drop m xs) ≡ drop (m + n) xs
drop-drop zero n xs = ap (λ (t : ℕ). drop t xs) (zero_add n)
  where
    zero_add : (n : ℕ) → n ≡ 0 + n
    zero_add n = omega arith
drop-drop (suc m) n [] = drop_nil n ∙ sym (drop_nil (suc m + n))
drop-drop (suc m) n (x ∷ xs) = drop-drop m n xs ∙ ap (λ (t : ℕ). drop t (x ∷ xs)) (suc_add m n)
  where
    suc_add : (m n : ℕ) → suc (m + n) ≡ suc m + n
    suc_add m n = omega arith

pub length-replicate : (n : ℕ) → length (replicate {A = ℕ} n 0) ≡ n
length-replicate zero = refl
length-replicate (suc n) = ap suc (length-replicate n)

pub length-resize : (xs : List ℕ) (n : ℕ) → length (resize xs n) ≡ n
length-resize xs n = omega (
  arith,
  length-take n (xs ++ replicate n 0),
  length-append xs (replicate n 0),
  length-replicate n,
)

pub append_nil : (xs : List ℕ) → xs ++ [] ≡ xs
append_nil [] = refl
append_nil (x ∷ xs) = ap (λ (t : List ℕ). x ∷ t) (append_nil xs)

module _ {M : Type 0} (dev : BlockBackend M) where
  -- The driver's loop: packets of at most 512 bytes until it has what it asked for.
  unfoldable pub collect : ℕ → ℕ → Storage M → List ℕ × Storage M
  collect zero left s = ([], s)
  collect (suc fuel) left s =
      let r = input dev s ep_in (min left 512) in
      let more = collect fuel (left - length (reply_bytes r.0)) r.1 in
      if left == 0 then ([], s) else (reply_bytes r.0 ++ more.0, more.1)

  input-data_in :
      (s : Storage M) (payload : List ℕ) (sent max : ℕ) (csw : Csw)
      → s.phase ≡ data_in payload sent csw
      → let n = min max (length payload - sent) in
        ◌≡◌ {A = Reply × Storage M} (input dev s ep_in max) (
          packet (take n (drop sent payload)),
          record s {
            phase =
                if sent + n == length payload then status csw else data_in payload (sent + n) csw;
          },
        )
  unfolding input
  input-data_in s payload sent max csw p = ground arith

  step : ℕ → ℕ → Reply × Storage M → List ℕ × Storage M
  step fuel left r =
      let more = collect fuel (left - length (reply_bytes r.0)) r.1 in
      (reply_bytes r.0 ++ more.0, more.1)

  both :
      {xs ys : List ℕ} {s t : Storage M}
      → xs ≡ ys
      → s ≡ t
      → ◌≡◌ {A = List ℕ × Storage M} (xs, s) (ys, t)
  both p q = rw (p, q) refl

  collect_zero :
      (fuel : ℕ) (s : Storage M) → ◌≡◌ {A = List ℕ × Storage M} (collect fuel 0 s) ([], s)
  unfolding collect
  collect_zero zero s = refl
  collect_zero (suc fuel) s = refl

  collect_left :
      (fuel left : ℕ) (s : Storage M)
      → 0 < left
      → collect (suc fuel) left s ≡ step fuel left (input dev s ep_in (min left 512))
  unfolding collect step
  collect_left fuel left s h = ground arith

  pub collect_lem :
      (fuel left : ℕ) (s : Storage M) (payload : List ℕ) (sent : ℕ) (csw : Csw)
      → s.phase ≡ data_in payload sent csw
      → sent + left ≡ length payload
      → 0 < left
      → left ≤ fuel
      → ◌≡◌ {A = List ℕ × Storage M}
          (collect fuel left s)
          (drop sent payload, record s { phase = status csw })
  unfolding step
  collect_lem zero left s payload sent csw p e h k = absurd (omega arith)
  collect_lem (suc fuel) left s payload sent csw p e h k =
      let n = min (min left 512) (length payload - sent) in
      let ds = drop sent payload in
      let len : length (take n ds) ≡ n =
        omega (arith, length-take n ds, length-drop sent payload) in
      collect_left fuel left s h
      ∙ ap (step fuel left) (input-data_in s payload sent (min left 512) csw p)
      ∙ elim (Bool-cases (sent + n == length payload)) [
        | inl last ↦
            let all : n ≡ left = ground arith in
            let none_left : left - length (take n ds) ≡ 0 = omega (arith, len, all) in
            rw (last, none_left, collect_zero fuel (record s { phase = status csw }))
              (both
                (append_nil (take n ds)
                  ∙ take_all n ds (omega (arith, length-drop sent payload, all)))
                refl)
        | inr more ↦
            let left' : left - length (take n ds) ≡ left - n = omega (arith, len) in
            rw
              (
                more,
                left',
                collect_lem fuel (left - n) (record s { phase = data_in payload (sent + n) csw })
                    payload (sent + n) csw refl (omega arith) (ground arith) (omega arith),
              )
              (both
                (ap (λ (t : List ℕ). take n ds ++ t) (sym (drop-drop sent n payload))
                  ∙ take-append-drop n ds)
                refl)
      ]
