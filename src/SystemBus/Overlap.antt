-- ===== src/SystemBus/Overlap.antt =====
-- Which windows are refused.
use ue2_c64u_emulator.Base.{
  ℕ, zero, suc, ◌+◌, ◌-◌, ◌*◌, ◌/◌, ◌%◌, ◌<◌, ◌≤◌, ◌≡◌, ◌≢◌, ◌↔◌, inl, inr, refl, sym, ap, ◌∙◌,
  arith, true, false, ◌==◌, leb, Option-cases, u16, Option, some, none, List, [], ◌∷◌, ◌++◌, length,
  get_elem?,
}
use ue2_c64u_emulator.SystemBus.IoMap.{
  IoMap, Window, fits, map_origin, resolve, relative, io_base, io_size, io_grain,
}
use ue2_c64u_emulator.SystemBus.Windows.{
  IsWellFormed, covers, covers_lem, fits_place, within, first_grain, grain_count, look, inside,
  map_origin-Mapped, claim_grains_succeeds,
}

-- A window that lies in the I/O space, on whole grains, and not below its origin.
pub record IsPlaced (base size origin : ℕ) : Type 0 where
  pub origin_below : origin ≤ base
  pub from_start : io_base ≤ base
  pub to_end : base + size ≤ io_base + io_size
  pub base_aligned : base % io_grain ≡ 0
  pub size_aligned : size % io_grain ≡ 0
  pub some_size : 0 < size

placed-fits : (base size origin : ℕ) → IsPlaced base size origin → fits base size origin ≡ true
placed-fits base size origin p = ground arith

get_elem?_some : {A : Type 0} (xs : List A) (i : ℕ) → i < length xs → get_elem? xs i ≢ none
get_elem?_some [] i h = absurd (omega arith)
get_elem?_some (x ∷ xs) zero h = λ e. cc
get_elem?_some (x ∷ xs) (suc i) h = get_elem?_some xs i (omega arith)

look_missing :
    (windows : List Window) (addr grain : ℕ)
    → grain ≤ length windows
    → look windows addr grain ≡ none
    → grain ≡ 0
look_missing windows addr zero h e = refl
look_missing windows addr (suc g) h e =
    let i : suc g - 1 ≡ g = omega arith in
    let nonzero : (suc g == 0) ≡ false = ground arith in
    elim (Option-cases (get_elem? windows g)) [
      | inl missing ↦ absurd (get_elem?_some windows g (omega arith) missing)
      | inr (w, found) ↦
          let k : ◌≡◌ {A = Option (ℕ × ℕ)} (some (w.dev, addr - w.base)) none =
            rw found at (rw (nonzero, i) at e) in
          cc
    ]

module _ {D : Type 0} where
  free_of_none :
      (m : IoMap D) (addr : ℕ)
      → IsWellFormed m
      → io_base ≤ addr
      → addr < io_base + io_size
      → resolve m addr ≡ none
      → m.grains ((addr - io_base) / io_grain) ≡ 0
  free_of_none m addr v h k e =
      let rel : relative addr ≡ addr - io_base = omega arith in
      let at : leb io_size (relative addr) ≡ false = ground arith in
      look_missing m.windows addr (m.grains ((addr - io_base) / io_grain))
        (v.named ((addr - io_base) / io_grain))
        (ap (λ (t : ℕ). look m.windows addr (m.grains (t / io_grain))) (sym rel)
          ∙ sym (inside m addr at)
          ∙ e)

  none_of_free :
      (m : IoMap D) (addr : ℕ) → m.grains (relative addr / io_grain) ≡ 0 → resolve m addr ≡ none
  unfolding resolve
  none_of_free m addr e = ground arith

  -- Mapping a window fails, which stops the program, exactly when the window does not lie in the
  -- I/O space on whole grains and above its origin, or an address of it is decoded already.
  pub map_origin_iff :
      (m : IoMap D) (base size dev origin : ℕ)
      → IsWellFormed m
      → ((m' : IoMap D) × (map_origin m base size dev origin ≡ some m')) ↔ (
          IsPlaced base size origin
          × ((addr : ℕ) → within base size addr ≡ true → resolve m addr ≡ none))
  unfolding map_origin
  map_origin_iff m base size dev origin v = (to, from)
    where
      to :
          (m' : IoMap D) × (map_origin m base size dev origin ≡ some m')
          → IsPlaced base size origin
            × ((addr : ℕ) → within base size addr ≡ true → resolve m addr ≡ none)
      to (m', h) =
          let done = map_origin-Mapped m m' base size dev origin h in
          let p = fits_place base size origin done.place in
          (
            record {
              origin_below = p.0;
              from_start = p.1;
              to_end = p.2;
              base_aligned = p.3;
              size_aligned = p.4;
              some_size = p.5;
            },
            λ addr at.
                let rel : relative addr ≡ addr - io_base = ground (arith, p.1, p.2) in
                none_of_free m addr (
                  ap (λ (t : ℕ). m.grains (t / io_grain)) rel
                  ∙ done.free_grains ((addr - io_base) / io_grain)
                      (covers_lem base size origin addr done.place (ground (arith, p.1)) ∙ at)),
          )

      freed :
          IsPlaced base size origin
          → ((addr : ℕ) → within base size addr ≡ true → resolve m addr ≡ none)
          → (i : ℕ) → covers base size i ≡ true
          → m.grains i ≡ 0
      freed p free i r =
          let e : (io_base + i * 256 - io_base) / io_grain ≡ i = omega arith in
          ap m.grains (sym e)
          ∙ free_of_none m (io_base + i * 256) v (omega arith) (ground arith) (
              free (io_base + i * 256) (
                sym (
                  covers_lem base size origin (io_base + i * 256) (placed-fits base size origin p)
                    (omega arith))
                ∙ ap (covers base size) e
                ∙ r))

      from :
          IsPlaced base size origin
            × ((addr : ℕ) → within base size addr ≡ true → resolve m addr ≡ none)
          → (m' : IoMap D) × (map_origin m base size dev origin ≡ some m')
      from (p, free) =
          let fit = placed-fits base size origin p in
          let claim =
            claim_grains_succeeds (grain_count base size) (first_grain base)
              (u16 (length m.windows + 1)) m.grains (freed p free) in
          (
            record m {
              grains = claim.0;
              windows = m.windows ++ (record { base = origin; dev = dev } ∷ []);
            },
            rw (fit, claim.1) refl,
          )
