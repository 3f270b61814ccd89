-- ===== src/SystemBus/Wide.antt =====
-- Accesses of 16 and 32 bits and instruction fetches: the short way inside one mirror of the memory, the
-- bytes one by one elsewhere.
use ue2_c64u_emulator.Base.{
  ℕ, zero, suc, ◌+◌, ◌*◌, ◌/◌, ◌^◌, bit_or, Bool, true, not, ◌&&◌, ◌==◌, leb, if◌then◌else◌, u8,
  u32, some, none, List, [], ◌∷◌, Memory, store,
}
use ue2_c64u_emulator.Rv32.Bus.{Bus}
use ue2_c64u_emulator.SystemBus.IoMap.{IoDevice}
use ue2_c64u_emulator.SystemBus.Access.{
  SystemBus, ram_span, ram_size, ram_index, boot_bram_page, read8, write8,
}

-- `from_le_bytes` and `to_le_bytes`
abbrev pub from_le_bytes : ℕ → ℕ → ℕ → ℕ → ℕ
from_le_bytes b0 b1 b2 b3 = b0 + b1 * 256 + b2 * 65536 + b3 * 16777216

-- `copy_from_slice` of the little-endian bytes of a number.
abbrev pub store16 : Memory → ℕ → ℕ → Memory
store16 m i val = store (store m i (u8 val)) (i + 1) (u8 (val / 256))

abbrev pub store32 : Memory → ℕ → ℕ → Memory
store32 m i val =
    store (store (store16 m i val) (i + 2) (u8 (val / 65536))) (i + 3) (u8 (val / 16777216))

module _ {D : Type 0} where
  unfoldable pub fetch_byte : SystemBus D → ℕ → ℕ
  fetch_byte b addr = if addr / 65536 == boot_bram_page then 0 else b.ram (ram_index addr)

  -- Fold over the bytes that are left, from byte `k` on.
  unfoldable pub fetch_bytes : ℕ → SystemBus D → ℕ → ℕ → ℕ → ℕ
  fetch_bytes zero b addr k acc = acc
  fetch_bytes (suc n) b addr k acc =
      fetch_bytes n b addr (k + 1) (bit_or acc (fetch_byte b (u32 (addr + k)) * 2 ^ (8 * k)))

  unfoldable pub fetch : SystemBus D → ℕ → ℕ × SystemBus D
  fetch b addr =
      let i = ram_index addr in
      if not (addr / 65536 == boot_bram_page) && leb (i + 4) ram_size
      then (from_le_bytes (b.ram i) (b.ram (i + 1)) (b.ram (i + 2)) (b.ram (i + 3)), b)
      else (fetch_bytes 4 b addr 0 0, b)

module _ {D : Type 0} (dev : IoDevice D) (mem_only : List D → Bool) where
  unfoldable pub read16 : SystemBus D → ℕ → ℕ × SystemBus D
  read16 b addr =
      let lo = read8 dev mem_only b addr in
      let hi = read8 dev mem_only lo.1 (u32 (addr + 1)) in
      elim (ram_span addr 2) [
        | some i ↦ (b.ram i + b.ram (i + 1) * 256, b)
        | none ↦ (bit_or lo.0 (hi.0 * 256), hi.1)
      ]

  -- The fold of the source over the bytes that are left, from byte `k` on.
  unfoldable pub read_bytes : ℕ → SystemBus D → ℕ → ℕ → ℕ → ℕ × SystemBus D
  read_bytes zero b addr k acc = (acc, b)
  read_bytes (suc n) b addr k acc =
      let r = read8 dev mem_only b (u32 (addr + k)) in
      read_bytes n r.1 addr (k + 1) (bit_or acc (r.0 * 2 ^ (8 * k)))

  unfoldable pub read32 : SystemBus D → ℕ → ℕ × SystemBus D
  read32 b addr = elim (ram_span addr 4) [
    | some i ↦ (from_le_bytes (b.ram i) (b.ram (i + 1)) (b.ram (i + 2)) (b.ram (i + 3)), b)
    | none ↦ read_bytes 4 b addr 0 0
  ]

  unfoldable pub write16 : SystemBus D → ℕ → ℕ → SystemBus D
  write16 b addr val = elim (ram_span addr 2) [
    | some i ↦ record b { ram = store16 b.ram i val; idle_dirty = true }
    | none ↦
        write8 dev mem_only (write8 dev mem_only b addr (u8 val)) (u32 (addr + 1)) (u8 (val / 256))
  ]

  unfoldable pub write_bytes : List ℕ → SystemBus D → ℕ → ℕ → SystemBus D
  write_bytes [] b addr k = b
  write_bytes (v ∷ vs) b addr k =
      write_bytes vs (write8 dev mem_only b (u32 (addr + k)) v) addr (k + 1)

  unfoldable pub write32 : SystemBus D → ℕ → ℕ → SystemBus D
  write32 b addr val = elim (ram_span addr 4) [
    | some i ↦ record b { ram = store32 b.ram i val; idle_dirty = true }
    | none ↦
        write_bytes (u8 val ∷ u8 (val / 256) ∷ u8 (val / 65536) ∷ u8 (val / 16777216) ∷ []) b addr 0
  ]

  -- What the processor is given.
  abbrev pub system_bus : Bus (SystemBus D)
  system_bus = record {
    read8 = read8 dev mem_only;
    write8 = write8 dev mem_only;
    read16 = read16;
    read32 = read32;
    write16 = write16;
    write32 = write32;
    fetch = fetch;
  }
