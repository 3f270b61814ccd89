-- ===== src/Rv32/LoadStore.antt =====
-- The default wide accesses of the bus, over addresses behind which there is a memory of bytes.
use mathlib.Core.Path.{subst}
use ue2_c64u_emulator.Base.{ℕ, ◌+◌, ◌*◌, ◌/◌, ◌%◌, ◌<◌, ◌≡◌, ◌∙◌, arith, ◌==◌, if◌then◌else◌, u32}
use ue2_c64u_emulator.Base.Masks.{bit_or_fields}
use ue2_c64u_emulator.Rv32.Bus.{read16, read32, write16, write32}

-- Plain memory at the addresses `Inside`: a read there changes nothing, and after a byte is written
-- there, a read there sees it or what was there before.
pub record IsRam {B : Type 0} (read8 : B → ℕ → ℕ × B) (write8 : B → ℕ → ℕ → B) (Inside : ℕ → Type 0)
    : Type 0 where
  pub quiet : (b : B) (a : ℕ) → Inside a → (read8 b a).1 ≡ b
  pub sees :
      (b : B) (a v a' : ℕ)
      → Inside a
      → Inside a'
      → v < 256
      → (read8 (write8 b a v) a').0 ≡ (if a == a' then v else (read8 b a').0)

module _ {B : Type 0} {read8 : B → ℕ → ℕ × B} {write8 : B → ℕ → ℕ → B} {Inside : ℕ → Type 0}
    (ram : IsRam read8 write8 Inside) where
  -- The four bytes of a word at `a`.
  abbrev at1 : ℕ → ℕ
  at1 a = u32 (a + 1)

  abbrev at2 : ℕ → ℕ
  at2 a = u32 (a + 2)

  abbrev at3 : ℕ → ℕ
  at3 a = u32 (u32 (a + 2) + 1)

  read32_lem :
      (b : B) (a x y z w : ℕ)
      → Inside a
      → Inside (at1 a)
      → Inside (at2 a)
      → x < 256
      → y < 256
      → z < 256
      → w < 256
      → (read8 b a).0 ≡ x
      → (read8 b (at1 a)).0 ≡ y
      → (read8 b (at2 a)).0 ≡ z
      → (read8 b (at3 a)).0 ≡ w
      → (read32 read8 b a).0 ≡ x + y * 256 + (z + w * 256) * 65536
  unfolding read32 read16
  read32_lem b a x y z w i j k hx hy hz hw ex ey ez ew =
      rw (ram.quiet b a i, ram.quiet b (at1 a) j, ram.quiet b (at2 a) k, ex, ey, ez, ew)
        (ground (
          arith,
          bit_or_fields 8 y x,
          bit_or_fields 8 w z,
          bit_or_fields 16 (z + w * 256) (x + y * 256),
        ))

  -- What is read at `t` after four bytes have been written.
  bytes_lem :
      (b : B) (a t x y z w : ℕ)
      → Inside a
      → Inside (at1 a)
      → Inside (at2 a)
      → Inside (at3 a)
      → Inside t
      → x < 256
      → y < 256
      → z < 256
      → w < 256
      → (read8 (write8 (write8 (write8 (write8 b a x) (at1 a) y) (at2 a) z) (at3 a) w) t).0 ≡ (
          if at3 a == t
          then w
          else if at2 a == t
          then z
          else if at1 a == t
          then y
          else if a == t
          then x
          else (read8 b t).0)
  bytes_lem b a t x y z w i j k l m hx hy hz hw =
      let b1 = write8 b a x in
      let b2 = write8 b1 (at1 a) y in
      let b3 = write8 b2 (at2 a) z in
      ground (
        arith,
        ram.sees b a x t i m hx,
        ram.sees b1 (at1 a) y t j m hy,
        ram.sees b2 (at2 a) z t k m hz,
        ram.sees b3 (at3 a) w t l m hw,
      )

  -- Where the four bytes of a word, which may wrap round the end of the address space, lie in plain
  -- memory, that is, a read of a byte there changes nothing, and sees the last byte written there: the
  -- bus's default 32-bit read returns what its default 32-bit write has stored.
  pub read32-write32 :
      (b : B) (a v : ℕ)
      → a < 4294967296
      → v < 4294967296
      → Inside a
      → Inside (u32 (a + 1))
      → Inside (u32 (a + 2))
      → Inside (u32 (a + 3))
      → (read32 read8 (write32 write8 b a v) a).0 ≡ v
  unfolding write32 write16
  read32-write32 b a v ha hv i j k l' =
      let l : Inside (at3 a) = subst Inside (third a ha) l' in
      let x = v % 65536 % 256 in
      let y = v % 65536 / 256 % 256 in
      let z = v / 65536 % 65536 % 256 in
      let w = v / 65536 % 65536 / 256 % 256 in
      let at = λ (t : ℕ) (m : Inside t).
        bytes_lem b a t x y z w i j k l m (omega arith) (omega arith) (omega arith) (omega arith) in
      read32_lem _ a x y z w i j k (omega arith) (omega arith) (omega arith) (omega arith)
        (ground (arith, at a i)) (ground (arith, at (at1 a) j)) (ground (arith, at (at2 a) k))
        (ground (arith, at (at3 a) l))
      ∙ omega arith
    where
      third : (a : ℕ) → a < 4294967296 → u32 (a + 3) ≡ at3 a
      third a h = omega arith
