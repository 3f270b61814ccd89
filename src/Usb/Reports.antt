-- ===== src/Usb/Reports.antt =====
-- The reports that the host reads from the keyboard after key events.
use ue2_c64u_emulator.Base.{
  ℕ, ◌+◌, ◌<◌, ◌≤◌, ◌≡◌, refl, sym, ap, ◌∙◌, arith, min, inl, inr, Bool, true, false, if◌then◌else◌,
  Bool-cases, eq_false_of_ne, List, [], ◌∷◌, ◌++◌, length, length-append, take, map,
}
use ue2_c64u_emulator.Usb.Function.{Reply, packet}
use ue2_c64u_emulator.Usb.Keyboard.{Keyboard, Report, report_bytes, changed, is_same, key, input}
use ue2_c64u_emulator.Usb.Keys.{key_all}

-- The reports that differ from the one before, one for each key event that changes it.
abbrev pub reports : Report → List (ℕ × Bool) → List Report
reports r [] = []
reports r ((usage, down) ∷ es) =
    let t = changed r usage down in if is_same t r then reports r es else t ∷ reports t es

-- The host's polls at the given times, with room for `max` bytes.
unfoldable pub polls : Keyboard → ℕ → List ℕ → List Reply
polls k max [] = []
polls k max (now ∷ nows) = let r = input k 1 max now in r.0 ∷ polls r.1 max nows

abbrev pub answer : ℕ → Report → Reply
answer max r = packet (take (min max 8) (report_bytes r))

append_nil : (q : List Report) → q ++ [] ≡ q
append_nil [] = refl
append_nil (r ∷ q) = ap (λ (t : List Report). r ∷ t) (append_nil q)

append_assoc : (xs ys zs : List Report) → (xs ++ ys) ++ zs ≡ xs ++ (ys ++ zs)
append_assoc [] ys zs = refl
append_assoc (x ∷ xs) ys zs = ap (λ (t : List Report). x ∷ t) (append_assoc xs ys zs)

key_same :
    (k : Keyboard) (u : ℕ) (down : Bool)
    → is_same (changed k.report u down) k.report ≡ true
    → key k u down ≡ k
unfolding key
key_same k u down e = rw e refl

key_other :
    (k : Keyboard) (u : ℕ) (down : Bool)
    → is_same (changed k.report u down) k.report ≡ false
    → length k.queue < 64
    → key k u down
      ≡ (let r = changed k.report u down in record k { report = r; queue = k.queue ++ (r ∷ []) })
unfolding key
key_other k u down e h = rw (e, eq_false_of_ne (length k.queue) 64 (omega arith)) refl

reports-same :
    (r : Report) (u : ℕ) (down : Bool) (es : List (ℕ × Bool))
    → is_same (changed r u down) r ≡ true
    → reports r ((u, down) ∷ es) ≡ reports r es
reports-same r u down es e =
    ap (λ (b : Bool). if b then reports r es else changed r u down ∷ reports (changed r u down) es)
      e

reports-other :
    (r : Report) (u : ℕ) (down : Bool) (es : List (ℕ × Bool))
    → is_same (changed r u down) r ≡ false
    → reports r ((u, down) ∷ es) ≡ changed r u down ∷ reports (changed r u down) es
reports-other r u down es e =
    ap (λ (b : Bool). if b then reports r es else changed r u down ∷ reports (changed r u down) es)
      e

key_all-queue :
    (es : List (ℕ × Bool)) (k : Keyboard)
    → length k.queue + length (reports k.report es) ≤ 64
    → (key_all k es).queue ≡ k.queue ++ reports k.report es
unfolding key_all
key_all-queue [] k h = sym (append_nil k.queue)
key_all-queue ((u, down) ∷ es) k h =
    elim (Bool-cases (is_same (changed k.report u down) k.report)) [
      | inl same ↦
          let l = reports-same k.report u down es same in
          ap (λ (t : Keyboard). (key_all t es).queue) (key_same k u down same)
          ∙ key_all-queue es k (omega (arith, h, ap length l))
          ∙ ap (λ (t : List Report). k.queue ++ t) (sym l)
      | inr other ↦
          let r = changed k.report u down in
          let l = reports-other k.report u down es other in
          let next = record k { report = r; queue = k.queue ++ (r ∷ []) } in
          ap (λ (t : Keyboard). (key_all t es).queue)
            (key_other k u down other (omega (arith, h, ap length l)))
          ∙ key_all-queue es next (omega (arith, h, ap length l, length-append k.queue (r ∷ [])))
          ∙ append_assoc k.queue (r ∷ []) (reports r es)
          ∙ ap (λ (t : List Report). k.queue ++ t) (sym l)
    ]

input-report :
    (k : Keyboard) (r : Report) (rs : List Report) (max now : ℕ)
    → k.queue ≡ r ∷ rs
    → ◌≡◌ {A = Reply × Keyboard}
        (input k 1 max now)
        (answer max r, record k { queue = rs; last_sent = now })
unfolding input
input-report k r rs max now e = ground arith

polls_lem :
    (nows : List ℕ) (q : List Report) (k : Keyboard) (max : ℕ)
    → k.queue ≡ q
    → length nows ≡ length q
    → polls k max nows ≡ map (answer max) q
unfolding polls
polls_lem [] [] k max e h = refl
polls_lem [] (r ∷ q) k max e h = absurd (omega arith)
polls_lem (now ∷ nows) [] k max e h = absurd (omega arith)
polls_lem (now ∷ nows) (r ∷ q) k max e h =
    ap (λ (x : Reply × Keyboard). x.0 ∷ polls x.1 max nows) (input-report k r q max now e)
    ∙ ap (λ (t : List Reply). answer max r ∷ t)
        (polls_lem nows q (record k { queue = q; last_sent = now }) max refl (omega (arith, h)))

-- No key event is lost to a host that polls late: when nothing waits and the key events change the report at most 64 times, as many polls
-- as there are changes, at any times, get every changed report once, in order, cut to the host's room.
pub polls-key_all :
    (k : Keyboard) (es : List (ℕ × Bool)) (max : ℕ) (nows : List ℕ)
    → k.queue ≡ []
    → length (reports k.report es) ≤ 64
    → length nows ≡ length (reports k.report es)
    → polls (key_all k es) max nows ≡ map (answer max) (reports k.report es)
polls-key_all k es max nows e h n =
    polls_lem nows (reports k.report es) (key_all k es) max
      (key_all-queue es k (omega (arith, h, ap length e))
        ∙ ap (λ (q : List Report). q ++ reports k.report es) e)
      n
