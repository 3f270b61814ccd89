-- ===== src/SystemBus/Windows.antt =====
-- A window that is mapped decodes its addresses, and only those.
use ue2_c64u_emulator.Base.{
  ℕ, zero, suc, ◌+◌, ◌-◌, ◌/◌, ◌%◌, ◌<◌, ◌≤◌, ◌≡◌, inl, inr, refl, sym, ap, ◌∙◌, arith, Bool, true,
  false, ◌&&◌, ◌==◌, leb, ltb, if◌then◌else◌, Bool-cases, Option-cases, eq_true_of_eq, u16, Option,
  some, none, List, [], ◌∷◌, ◌++◌, length, length-append, get_elem?, Memory, store,
}
use ue2_c64u_emulator.SystemBus.IoMap.{
  IoMap, Window, claim_grains, fits, map_origin, resolve, relative, io_base, io_size, io_grain,
}

abbrev pub in_range : ℕ → ℕ → ℕ → Bool
in_range g n i = leb g i && ltb i (g + n)

pub some_inj : {A : Type 0} {a b : A} → some a ≡ some b → a ≡ b
some_inj h = cc

claim_grains_get :
    (n g w : ℕ) (grains grains' : Memory)
    → claim_grains n g w grains ≡ some grains'
    → (i : ℕ) → grains' i ≡ (if in_range g n i then w else grains i)
unfolding claim_grains store
claim_grains_get zero g w grains grains' h i = ground (arith, ap (λ (m : Memory). m i) (some_inj h))
claim_grains_get (suc n) g w grains grains' h i = elim (Bool-cases (grains g == 0)) [
  | inl free ↦
      ground (arith, claim_grains_get n (g + 1) w (store grains g w) grains' (rw free at h) i)
  | inr taken ↦ let e : none ≡ some grains' = rw taken at h in cc
]

claim_grains_vacant :
    (n g w : ℕ) (grains grains' : Memory)
    → claim_grains n g w grains ≡ some grains'
    → (i : ℕ) → in_range g n i ≡ true
    → grains i ≡ 0
unfolding claim_grains store
claim_grains_vacant zero g w grains grains' h i r = ground arith
claim_grains_vacant (suc n) g w grains grains' h i r = elim (Bool-cases (grains g == 0)) [
  | inl free ↦ elim (Bool-cases (i == g)) [
    | inl here ↦ ground arith
    | inr other ↦
        ground (arith, claim_grains_vacant n (g + 1) w (store grains g w) grains' (rw free at h) i)
  ]
  | inr taken ↦ let e : none ≡ some grains' = rw taken at h in cc
]

-- Claiming free grains succeeds.
pub claim_grains_succeeds :
    (n g w : ℕ) (grains : Memory)
    → ((i : ℕ) → in_range g n i ≡ true → grains i ≡ 0)
    → (grains' : Memory) × (claim_grains n g w grains ≡ some grains')
unfolding claim_grains store
claim_grains_succeeds zero g w grains h = (grains, refl)
claim_grains_succeeds (suc n) g w grains h =
    let rest =
      claim_grains_succeeds n (g + 1) w (store grains g w)
        (λ i r. ground (arith, h i (ground arith))) in
    (rest.0, rw (eq_true_of_eq (grains g) 0 (h g (ground arith))) rest.1)

pub get_elem?-append_last :
    {A : Type 0} (xs : List A) (x : A) → get_elem? (xs ++ (x ∷ [])) (length xs) ≡ some x
get_elem?-append_last [] x = refl
get_elem?-append_last (y ∷ xs) x = get_elem?-append_last xs x

get_elem?-append_left :
    {A : Type 0} (xs ys : List A) (i : ℕ) → i < length xs → get_elem? (xs ++ ys) i ≡ get_elem? xs i
get_elem?-append_left [] ys i h = absurd (omega arith)
get_elem?-append_left (x ∷ xs) ys zero h = refl
get_elem?-append_left (x ∷ xs) ys (suc i) h = get_elem?-append_left xs ys i (omega arith)

abbrev pub within : ℕ → ℕ → ℕ → Bool
within base size addr = leb base addr && ltb addr (base + size)

-- The grains of a window.
abbrev pub first_grain : ℕ → ℕ
first_grain base = (base - io_base) / io_grain

abbrev pub grain_count : ℕ → ℕ → ℕ
grain_count base size = (base + size - io_base) / io_grain - (base - io_base) / io_grain

abbrev pub covers : ℕ → ℕ → ℕ → Bool
covers base size i = in_range (first_grain base) (grain_count base size) i

pub fits_place :
    (base size origin : ℕ)
    → fits base size origin ≡ true
    → (origin ≤ base)
      × (io_base ≤ base)
      × (base + size ≤ io_base + io_size)
      × (base % io_grain ≡ 0)
      × (size % io_grain ≡ 0)
      × (0 < size)
fits_place base size origin f =
    (ground arith, ground arith, ground arith, ground arith, ground arith, ground arith)

-- A grain is the window's exactly when its addresses are.
pub covers_lem :
    (base size origin addr : ℕ)
    → fits base size origin ≡ true
    → io_base ≤ addr
    → covers base size ((addr - io_base) / io_grain) ≡ within base size addr
covers_lem base size origin addr f h =
    let p = fits_place base size origin f in ground (arith, p.0, p.1, p.2, p.3, p.4)

module _ {D : Type 0} where
  -- Every grain's window exists.
  pub record IsWellFormed (m : IoMap D) : Type 0 where
    pub named : (g : ℕ) → m.grains g ≤ length m.windows

  -- What mapping a window has done: its grains, which were free, and the window are new.
  pub record Mapped (m : IoMap D) (base size dev origin : ℕ) (m' : IoMap D) : Type 0 where
    pub place : fits base size origin ≡ true
    pub new_grains :
        (i : ℕ)
        → m'.grains i ≡ (if covers base size i then u16 (length m.windows + 1) else m.grains i)
    pub free_grains : (i : ℕ) → covers base size i ≡ true → m.grains i ≡ 0
    pub new_windows : m'.windows ≡ m.windows ++ (record { base = origin; dev = dev } ∷ [])
    pub same_devices : m'.devices ≡ m.devices

  pub map_origin-Mapped :
      (m m' : IoMap D) (base size dev origin : ℕ)
      → map_origin m base size dev origin ≡ some m'
      → Mapped m base size dev origin m'
  unfolding map_origin
  map_origin-Mapped m m' base size dev origin h =
      let claim =
        claim_grains (grain_count base size) (first_grain base) (u16 (length m.windows + 1))
          m.grains in
      elim (Bool-cases (fits base size origin)) [
        | inr misfit ↦ let e : none ≡ some m' = rw misfit at h in cc
        | inl fit ↦ elim (Option-cases claim) [
          | inl failed ↦ let e : none ≡ some m' = rw failed at (rw fit at h) in cc
          | inr (grains, done) ↦
              let e : some (record m {
                grains = grains;
                windows = m.windows ++ (record { base = origin; dev = dev } ∷ []);
              })
                  ≡ some m' =
                rw done at (rw fit at h) in
              rw⁻¹ (some_inj e) record {
                place = fit;
                new_grains = claim_grains_get _ _ _ m.grains grains done;
                free_grains = claim_grains_vacant _ _ _ m.grains grains done;
                new_windows = refl;
                same_devices = refl;
              }
        ]
      ]

-- What a grain's entry says of an address.
abbrev pub look : List Window → ℕ → ℕ → Option (ℕ × ℕ)
look windows addr grain =
    if grain == 0
    then none
    else elim (get_elem? windows (grain - 1)) [ some w ↦ some (w.dev, addr - w.base) | none ↦ none ]

look_new :
    (windows : List Window) (w : Window) (addr : ℕ)
    → length windows < 65535
    → look (windows ++ (w ∷ [])) addr (u16 (length windows + 1)) ≡ some (w.dev, addr - w.base)
look_new windows w addr h =
    let i : u16 (length windows + 1) - 1 ≡ length windows = omega arith in
    let nonzero : (u16 (length windows + 1) == 0) ≡ false = ground arith in
    rw (nonzero, i, get_elem?-append_last windows w) refl

look_old :
    (windows : List Window) (w : Window) (addr grain : ℕ)
    → grain ≤ length windows
    → look (windows ++ (w ∷ [])) addr grain ≡ look windows addr grain
look_old windows w addr zero h = refl
look_old windows w addr (suc g) h =
    let i : suc g - 1 ≡ g = omega arith in
    rw (i, get_elem?-append_left windows (w ∷ []) g (omega arith)) refl

look_cases :
    (windows : List Window) (w : Window) (addr grain : ℕ) (b : Bool)
    → length windows < 65535
    → grain ≤ length windows
    → look (windows ++ (w ∷ [])) addr (if b then u16 (length windows + 1) else grain)
      ≡ (if b then some (w.dev, addr - w.base) else look windows addr grain)
look_cases windows w addr grain true h k = look_new windows w addr h
look_cases windows w addr grain false h k = look_old windows w addr grain k

looks :
    {windows windows' : List Window} {grain grain' : ℕ} (addr : ℕ)
    → windows ≡ windows'
    → grain ≡ grain'
    → look windows addr grain ≡ look windows' addr grain'
looks addr p q = rw (p, q) refl

claimed_lt : (b : Bool) (n g : ℕ) → g ≤ n → (if b then u16 (n + 1) else g) ≤ n + 1
claimed_lt b n g h = ground arith

module _ {D : Type 0} where
  pub outside :
      (m : IoMap D) (addr : ℕ) → leb io_size (relative addr) ≡ true → resolve m addr ≡ none
  unfolding resolve
  outside m addr h = rw h refl

  pub inside :
      (m : IoMap D) (addr : ℕ)
      → leb io_size (relative addr) ≡ false
      → resolve m addr ≡ look m.windows addr (m.grains (relative addr / io_grain))
  unfolding resolve
  inside m addr h = rw h refl

  -- A window that is mapped decodes its addresses to its device, as offsets from its origin, and no
  -- other address is decoded differently than before, for a map of at most 65534 windows.
  pub resolve-map_origin :
      (m m' : IoMap D) (base size dev origin : ℕ)
      → IsWellFormed m
      → length m.windows < 65535
      → map_origin m base size dev origin ≡ some m'
      → (addr : ℕ) → addr < 0x100000000
      → resolve m' addr
        ≡ (if within base size addr then some (dev, addr - origin) else resolve m addr)
  resolve-map_origin m m' base size dev origin v n h addr r =
      let done = map_origin-Mapped m m' base size dev origin h in
      let p = fits_place base size origin done.place in
      elim (Bool-cases (leb io_size (relative addr))) [
        | inl out ↦
            let apart : within base size addr ≡ false = ground (arith, p.1, p.2) in
            rw (outside m' addr out, outside m addr out, apart) refl
        | inr at ↦
            let rel : relative addr ≡ addr - io_base = ground arith in
            let c : covers base size (relative addr / io_grain) ≡ within base size addr =
              ap (λ (t : ℕ). covers base size (t / io_grain)) rel
              ∙ covers_lem base size origin addr done.place (ground arith) in
            inside m' addr at
            ∙ looks addr done.new_windows (
                done.new_grains (relative addr / io_grain)
                ∙ ap
                    (λ (b : Bool).
                      if b then u16 (length m.windows + 1) else m.grains (relative addr / io_grain))
                    c)
            ∙ look_cases m.windows (record { base = origin; dev = dev }) addr
                (m.grains (relative addr / io_grain)) (within base size addr) n
                (v.named (relative addr / io_grain))
            ∙ ap
                (λ (t : Option (ℕ × ℕ)).
                  if within base size addr then some (dev, addr - origin) else t)
                (sym (inside m addr at))
      ]

  -- The invariant holds of the empty map and of every map made from it.
  pub map_origin-IsWellFormed :
      (m m' : IoMap D) (base size dev origin : ℕ)
      → IsWellFormed m
      → map_origin m base size dev origin ≡ some m'
      → IsWellFormed m'
  map_origin-IsWellFormed m m' base size dev origin v h =
      let done = map_origin-Mapped m m' base size dev origin h in
      record {
        named = λ g. omega (
          arith,
          claimed_lt (covers base size g) (length m.windows) (m.grains g) (v.named g),
          done.new_grains g,
          ap length done.new_windows,
          length-append m.windows (record { base = origin; dev = dev } ∷ []),
        );
      }
