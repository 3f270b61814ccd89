-- ===== src/Rv32/Bus.antt =====
-- The memory bus of the processor: the trait's operations, and its default methods, which make the
-- wider accesses little-endian sequences of bytes.
use ue2_c64u_emulator.Base.{ℕ, ◌+◌, ◌*◌, ◌/◌, bit_or, u8, u16, u32}

-- An access returns the bus after it, since a device may change when it is read.
pub record Bus (B : Type 0) : Type 0 where
  pub read8 : B → ℕ → ℕ × B
  pub write8 : B → ℕ → ℕ → B
  pub read16 : B → ℕ → ℕ × B
  pub read32 : B → ℕ → ℕ × B
  pub write16 : B → ℕ → ℕ → B
  pub write32 : B → ℕ → ℕ → B
  pub fetch : B → ℕ → ℕ × B

module _ {B : Type 0} (read8 : B → ℕ → ℕ × B) where
  unfoldable pub read16 : B → ℕ → ℕ × B
  read16 b addr =
      let (lo, b1) = read8 b addr in
      let (hi, b2) = read8 b1 (u32 (addr + 1)) in (bit_or lo (hi * 256), b2)

  unfoldable pub read32 : B → ℕ → ℕ × B
  unfolding read16
  read32 b addr =
      let (lo, b1) = read16 b addr in
      let (hi, b2) = read16 b1 (u32 (addr + 2)) in (bit_or lo (hi * 65536), b2)

  unfoldable pub fetch : B → ℕ → ℕ × B
  unfolding read32
  fetch b addr = read32 b addr

module _ {B : Type 0} (write8 : B → ℕ → ℕ → B) where
  unfoldable pub write16 : B → ℕ → ℕ → B
  write16 b addr val = write8 (write8 b addr (u8 val)) (u32 (addr + 1)) (u8 (val / 256))

  unfoldable pub write32 : B → ℕ → ℕ → B
  unfolding write16
  write32 b addr val = write16 (write16 b addr (u16 val)) (u32 (addr + 2)) (u16 (val / 65536))

-- A bus that implements the two required methods.
abbrev pub default_bus : {B : Type 0} → (B → ℕ → ℕ × B) → (B → ℕ → ℕ → B) → Bus B
default_bus read8 write8 = record {
  read8 = read8;
  write8 = write8;
  read16 = read16 read8;
  read32 = read32 read8;
  write16 = write16 write8;
  write32 = write32 write8;
  fetch = fetch read8;
}
