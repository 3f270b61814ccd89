-- ===== src/SystemBus/Fetch.antt =====
-- Instructions are fetched from the memory that the data bus writes, at every mirror of it.
use ue2_c64u_emulator.Base.{
  ℕ, ◌+◌, ◌/◌, ◌<◌, ◌≤◌, ◌≡◌, ◌≢◌, ap, ◌∙◌, arith, Bool, true, u8, some, List, Memory, store,
  store_self, store_ne,
}
use ue2_c64u_emulator.SystemBus.IoMap.{IoDevice}
use ue2_c64u_emulator.SystemBus.Access.{SystemBus, ram_span, ram_size, ram_index, boot_bram_page}
use ue2_c64u_emulator.SystemBus.Wide.{fetch, write32, read32, store32, from_le_bytes}
use ue2_c64u_emulator.SystemBus.Mirrors.{span-Inside}
use ue2_c64u_emulator.SystemBus.Stores.{write32_span}
use ue2_c64u_emulator.SystemBus.Loads.{read32_span}

-- The four bytes of a word come back.
stored_word :
    (m : Memory) (i v : ℕ)
    → v < 0x100000000
    → from_le_bytes
        (store32 m i v i)
        (store32 m i v (i + 1))
        (store32 m i v (i + 2))
        (store32 m i v (i + 3))
      ≡ v
stored_word m i v h =
    let s1 = store m i (u8 v) in
    let s2 = store s1 (i + 1) (u8 (v / 256)) in
    let s3 = store s2 (i + 2) (u8 (v / 65536)) in
    let b0 =
      store_ne s3 (i + 3) (u8 (v / 16777216)) i (omega arith)
      ∙ store_ne s2 (i + 2) (u8 (v / 65536)) i (omega arith)
      ∙ store_ne s1 (i + 1) (u8 (v / 256)) i (omega arith)
      ∙ store_self m i (u8 v) in
    let b1 =
      store_ne s3 (i + 3) (u8 (v / 16777216)) (i + 1) (omega arith)
      ∙ store_ne s2 (i + 2) (u8 (v / 65536)) (i + 1) (omega arith)
      ∙ store_self s1 (i + 1) (u8 (v / 256)) in
    let b2 =
      store_ne s3 (i + 3) (u8 (v / 16777216)) (i + 2) (omega arith)
      ∙ store_self s2 (i + 2) (u8 (v / 65536)) in
    let b3 = store_self s3 (i + 3) (u8 (v / 16777216)) in omega (arith, b0, b1, b2, b3)

module _ {D : Type 0} (dev : IoDevice D) (mem_only : List D → Bool) where
  fetch_ram :
      (b : SystemBus D) (addr : ℕ)
      → addr / 65536 ≢ boot_bram_page
      → ram_index addr + 4 ≤ ram_size
      → (fetch b addr).0
        ≡ from_le_bytes
            (b.ram (ram_index addr))
            (b.ram (ram_index addr + 1))
            (b.ram (ram_index addr + 2))
            (b.ram (ram_index addr + 3))
  unfolding fetch
  fetch_ram b addr h k = ground arith

  -- A word that is written inside one mirror of the memory is read back there by the data bus, and
  -- fetched as an instruction at the same place of any mirror outside the boot page.
  pub fetch-write32 :
      (b : SystemBus D) (addr i v pc : ℕ)
      → ram_span addr 4 ≡ some i
      → v < 0x100000000
      → pc / 65536 ≢ boot_bram_page
      → ram_index pc ≡ ram_index addr
      → ((read32 dev mem_only (write32 dev mem_only b addr v) addr).0 ≡ v)
        × ((fetch (write32 dev mem_only b addr v) pc).0 ≡ v)
  fetch-write32 b addr i v pc s h page mirror =
      let p = span-Inside addr 4 i s in
      let w = write32_span dev mem_only b addr v i s in
      let c = record b { ram = store32 b.ram i v; idle_dirty = true } in
      (
        ap (λ (t : SystemBus D). (read32 dev mem_only t addr).0) w
            ∙ ap (λ (t : ℕ × SystemBus D). t.0) (read32_span dev mem_only c addr i s)
            ∙ stored_word b.ram i v h,
        ap (λ (t : SystemBus D). (fetch t pc).0) w
            ∙ fetch_ram c pc page (omega (arith, p.room))
            ∙ ap
                (λ (t : ℕ). from_le_bytes (c.ram t) (c.ram (t + 1)) (c.ram (t + 2)) (c.ram (t + 3)))
                (omega (arith, p.index))
            ∙ stored_word b.ram i v h,
      )
