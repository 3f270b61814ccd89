-- ===== src/Usb/Keys.antt =====
-- The keys that the keyboard reports as held, and the order in which the host gets the reports.
use mathlib.Core.Path.{subst}
use ue2_c64u_emulator.Base.{
  ℕ, ◌≡◌, ◌≢◌, refl, sym, ap, ◌∙◌, arith, inl, inr, Bool, true, false, not, ◌&&◌, ◌||◌, ◌==◌,
  if◌then◌else◌, if_cases, Bool-cases, eq_false_of_ne, List, [], ◌∷◌, ◌++◌,
}
use ue2_c64u_emulator.Usb.Keyboard.{
  Keyboard, Report, contains, fill, close_gap, changed_keys, changed, is_modifier, is_same, list_eq,
  key, new,
}

-- No key is held twice.
abbrev pub IsDistinct : List ℕ → Type 0
IsDistinct [] = Unit {0}
IsDistinct (k ∷ ks) = (((k == 0) || not (contains ks k)) ≡ true) × IsDistinct ks

contains-fill :
    (ks : List ℕ) (u v : ℕ)
    → v ≢ 0
    → contains (fill ks u) v ≡ (contains ks v || ((u == v) && contains ks 0))
contains-fill [] u v h = ground arith
contains-fill (k ∷ ks) u v h = ground (arith, contains-fill ks u v h)

contains-last : (ks : List ℕ) (v : ℕ) → v ≢ 0 → contains (ks ++ (0 ∷ [])) v ≡ contains ks v
contains-last [] v h = ground arith
contains-last (k ∷ ks) v h = ground (arith, contains-last ks v h)

not_again :
    (k : ℕ) (ks : List ℕ) (u : ℕ)
    → u ≢ 0
    → k ≡ u
    → ((k == 0) || not (contains ks k)) ≡ true
    → contains ks u ≡ false
not_again k ks u h e d = rw⁻¹ e (ground (arith, d))

contains-close_gap :
    (ks : List ℕ) (u v : ℕ)
    → u ≢ 0
    → v ≢ 0
    → IsDistinct ks
    → contains (close_gap ks u) v ≡ (contains ks v && not (u == v))
contains-close_gap [] u v hu hv d = ground arith
contains-close_gap (k ∷ ks) u v hu hv d = elim (Bool-cases (k == u)) [
  | inl here ↦ ground (arith, here, contains-last ks v hv, not_again k ks u hu (ground arith) d.0)
  | inr there ↦ ground (arith, there, contains-close_gap ks u v hu hv d.1)
]

IsDistinct-fill :
    (ks : List ℕ) (u : ℕ) → u ≢ 0 → contains ks u ≡ false → IsDistinct ks → IsDistinct (fill ks u)
IsDistinct-fill [] u h n d = tt
IsDistinct-fill (k ∷ ks) u h n d = elim (Bool-cases (k == 0)) [
  | inl free ↦ rw free (ground (arith, n), d.1)
  | inr taken ↦ rw taken (
    ground (arith, n, taken, d.0, contains-fill ks u k (ground arith)),
    IsDistinct-fill ks u h (ground (arith, n)) d.1,
  )
]

IsDistinct-last : (ks : List ℕ) → IsDistinct ks → IsDistinct (ks ++ (0 ∷ []))
IsDistinct-last [] d = (refl, tt)
IsDistinct-last (k ∷ ks) d = (
  elim (Bool-cases (k == 0)) [
    | inl free ↦ rw free refl
    | inr taken ↦ ground (arith, taken, d.0, contains-last ks k (ground arith))
  ],
  IsDistinct-last ks d.1,
)

IsDistinct-close_gap : (ks : List ℕ) (u : ℕ) → u ≢ 0 → IsDistinct ks → IsDistinct (close_gap ks u)
IsDistinct-close_gap [] u h d = tt
IsDistinct-close_gap (k ∷ ks) u h d = elim (Bool-cases (k == u)) [
  | inl here ↦ rw here (IsDistinct-last ks d.1)
  | inr there ↦ rw there (
    elim (Bool-cases (k == 0)) [
      | inl free ↦ rw free refl
      | inr taken ↦ ground (arith, taken, d.0, contains-close_gap ks u k h (ground arith) d.1)
    ],
    IsDistinct-close_gap ks u h d.1,
  )
]

false_ne_true : false ≡ true → ⊥
false_ne_true e = cc e

eq_of_test : (x y : ℕ) → (x == y) ≡ true → x ≡ y
eq_of_test x y e = ground arith

list_eq_sound : (xs ys : List ℕ) → list_eq xs ys ≡ true → xs ≡ ys
list_eq_sound [] [] e = refl
list_eq_sound [] (y ∷ ys) e = absurd (false_ne_true e)
list_eq_sound (x ∷ xs) [] e = absurd (false_ne_true e)
list_eq_sound (x ∷ xs) (y ∷ ys) e =
    rw (eq_of_test x y (ground (arith, e)), list_eq_sound xs ys (ground (arith, e))) refl

same_report : (r t : Report) → is_same r t ≡ true → r ≡ t
same_report r t e = fields r t (ground (arith, e)) (list_eq_sound r.keys t.keys (ground (arith, e)))
  where
    fields : (r t : Report) → r.modifiers ≡ t.modifiers → r.keys ≡ t.keys → r ≡ t
    fields r t p q = rw (p, q) refl

pub key-report :
    (k : Keyboard) (u : ℕ) (down : Bool) → (key k u down).report ≡ changed k.report u down
unfolding key
key-report k u down = elim (Bool-cases (is_same (changed k.report u down) k.report)) [
  | inl same ↦ rw same (sym (same_report _ _ same))
  | inr other ↦ rw other refl
]

-- The keyboard after key events.
unfoldable pub key_all : Keyboard → List (ℕ × Bool) → Keyboard
key_all k [] = k
key_all k ((usage, down) ∷ es) = key_all (key k usage down) es

changed_keys-IsDistinct :
    (ks : List ℕ) (u : ℕ) (down : Bool)
    → u ≢ 0
    → IsDistinct ks
    → IsDistinct (changed_keys ks u down)
changed_keys-IsDistinct ks u true h d =
    if_cases IsDistinct (contains ks u) _ _ (λ e. d) (λ e. IsDistinct-fill ks u h e d)
changed_keys-IsDistinct ks u false h d =
    if_cases IsDistinct (contains ks u) _ _ (λ e. IsDistinct-close_gap ks u h d) (λ e. d)

changed-IsDistinct :
    (r : Report) (u : ℕ) (down : Bool) → IsDistinct r.keys → IsDistinct (changed r u down).keys
unfolding changed
changed-IsDistinct r u down d =
    if_cases (λ (t : Report). IsDistinct t.keys) (is_modifier u) _ _ (λ e. d)
      (λ e.
        if_cases (λ (t : Report). IsDistinct t.keys) (u == 0) _ _ (λ z. d)
          (λ z. changed_keys-IsDistinct r.keys u down (ground (arith, z)) d))

key_all-IsDistinct :
    (es : List (ℕ × Bool)) (k : Keyboard)
    → IsDistinct k.report.keys
    → IsDistinct (key_all k es).report.keys
unfolding key_all
key_all-IsDistinct [] k d = d
key_all-IsDistinct ((u, down) ∷ es) k d = key_all-IsDistinct es (key k u down) (
    subst (λ (t : Report). IsDistinct t.keys) (sym (key-report k u down))
      (changed-IsDistinct k.report u down d))

changed_keys-contains :
    (ks : List ℕ) (u v : ℕ) (down : Bool)
    → u ≢ 0
    → v ≢ 0
    → IsDistinct ks
    → contains (changed_keys ks u down) v
      ≡ (if u == v then down && (contains ks u || contains ks 0) else contains ks v)
changed_keys-contains ks u v true hu hv d = elim (Bool-cases (u == v)) [
  | inl same ↦ elim (Bool-cases (contains ks u)) [
    | inl held ↦
        ground (arith, same, held, ap (contains ks) (eq_of_test u v same), contains-fill ks u v hv)
    | inr free ↦
        ground (arith, same, free, ap (contains ks) (eq_of_test u v same), contains-fill ks u v hv)
  ]
  | inr other ↦ elim (Bool-cases (contains ks u)) [
    | inl held ↦ ground (arith, other, held, contains-fill ks u v hv)
    | inr free ↦ ground (arith, other, free, contains-fill ks u v hv)
  ]
]
changed_keys-contains ks u v false hu hv d = elim (Bool-cases (u == v)) [
  | inl same ↦ elim (Bool-cases (contains ks u)) [
    | inl held ↦ ground (
      arith,
      same,
      held,
      ap (contains ks) (eq_of_test u v same),
      contains-close_gap ks u v hu hv d,
    )
    | inr free ↦ ground (
      arith,
      same,
      free,
      ap (contains ks) (eq_of_test u v same),
      contains-close_gap ks u v hu hv d,
    )
  ]
  | inr other ↦ elim (Bool-cases (contains ks u)) [
    | inl held ↦ ground (arith, other, held, contains-close_gap ks u v hu hv d)
    | inr free ↦ ground (arith, other, free, contains-close_gap ks u v hu hv d)
  ]
]

changed-key :
    (r : Report) (u : ℕ) (down : Bool)
    → u ≢ 0
    → is_modifier u ≡ false
    → changed r u down ≡ record r { keys = changed_keys r.keys u down }
unfolding changed
changed-key r u down h m = rw (m, eq_false_of_ne u 0 h) refl

-- After any key events, one more for a key that is no modifier: a press is reported when a place of the report is free or
-- the key is held already, a release always ends it, and neither changes what is reported of another key
-- or of the modifiers.
pub held_lem :
    (es : List (ℕ × Bool)) (u v : ℕ) (down : Bool)
    → u ≢ 0
    → v ≢ 0
    → is_modifier u ≡ false
    → let k = key_all new es in
      let t = key k u down in
      (contains t.report.keys v ≡ (
        if u == v
        then down && (contains k.report.keys u || contains k.report.keys 0)
        else contains k.report.keys v))
      × (t.report.modifiers ≡ k.report.modifiers)
held_lem es u v down hu hv m =
    let k = key_all new es in
    let e = key-report k u down ∙ changed-key k.report u down hu m in
    let d = key_all-IsDistinct es new new-IsDistinct in
    (
      ap (λ (r : Report). contains r.keys v) e
          ∙ changed_keys-contains k.report.keys u v down hu hv d,
      ap (λ (r : Report). r.modifiers) e,
    )
  where
    new-IsDistinct : IsDistinct new.report.keys
    new-IsDistinct = unfold new in (refl, (refl, (refl, (refl, (refl, (refl, tt))))))
