-- ===== src/SystemBus/Stores.antt =====
-- A 32-bit write of the bus is the trait's default over its bytes: the short way through the memory
-- changes nothing but the speed.
use ue2_c64u_emulator.Base.{
  ℕ, ◌+◌, ◌/◌, ◌%◌, ◌<◌, ◌≡◌, refl, sym, ap, ◌∙◌, arith, inl, inr, Bool, true, u8, u32, some, none,
  Option-cases, List, [], ◌∷◌, store,
}
use ue2_c64u_emulator.Rv32.Bus
use ue2_c64u_emulator.SystemBus.IoMap.{IoDevice}
use ue2_c64u_emulator.SystemBus.Access.{SystemBus, ram, region, ram_span, write8}
use ue2_c64u_emulator.SystemBus.Wide.{write_bytes, write32, store32}
use ue2_c64u_emulator.SystemBus.Mirrors.{region_span}

module _ {D : Type 0} (dev : IoDevice D) (mem_only : List D → Bool) where
  pub write8_ram :
      (b : SystemBus D) (a i v : ℕ)
      → region a ≡ ram i
      → write8 dev mem_only b a v ≡ record b { ram = store b.ram i v; idle_dirty = true }
  unfolding write8
  write8_ram b a i v e = ground arith

  -- Four bytes in order, each at the address after the last.
  four_writes : SystemBus D → ℕ → ℕ → SystemBus D
  four_writes b addr val =
      write8 dev mem_only
        (write8 dev mem_only
          (write8 dev mem_only (write8 dev mem_only b addr (u8 val)) (u32 (addr + 1))
            (u8 (val / 256)))
          (u32 (addr + 2)) (u8 (val / 65536)))
        (u32 (addr + 3)) (u8 (val / 16777216))

  writes_default :
      (b : SystemBus D) (addr val : ℕ)
      → Bus.write32 (write8 dev mem_only) b addr val ≡ four_writes b addr val
  unfolding Bus.write32 Bus.write16 four_writes
  writes_default b addr val =
      let e0 : val % 65536 % 256 ≡ val % 256 = omega arith in
      let e1 : val % 65536 / 256 % 256 ≡ val / 256 % 256 = omega arith in
      let e2 : val / 65536 % 65536 % 256 ≡ val / 65536 % 256 = omega arith in
      let e3 : val / 65536 % 65536 / 256 % 256 ≡ val / 16777216 % 256 = omega arith in
      let a3 : ((addr + 2) % 0x100000000 + 1) % 0x100000000 ≡ (addr + 3) % 0x100000000 =
        omega arith in
      rw (e0, e1, e2, e3, a3) refl

  writes_bytes :
      (b : SystemBus D) (addr val : ℕ)
      → addr < 0x100000000
      → write_bytes dev mem_only
          (u8 val ∷ u8 (val / 256) ∷ u8 (val / 65536) ∷ u8 (val / 16777216) ∷ [])
          b
          addr
          0
        ≡ four_writes b addr val
  unfolding write_bytes four_writes
  writes_bytes b addr val h = let e : u32 (addr + 0) ≡ addr = omega arith in rw e refl

  writes_ram :
      (b : SystemBus D) (addr val i : ℕ)
      → addr < 0x100000000
      → ram_span addr 4 ≡ some i
      → record b { ram = store32 b.ram i val; idle_dirty = true } ≡ four_writes b addr val
  unfolding four_writes
  writes_ram b addr val i h s =
      let w = write8 dev mem_only in
      let b1 = record b { ram = store b.ram i (u8 val); idle_dirty = true } in
      let b2 = record b1 { ram = store b1.ram (i + 1) (u8 (val / 256)) } in
      let b3 = record b2 { ram = store b2.ram (i + 2) (u8 (val / 65536)) } in
      let e : u32 (addr + 0) ≡ addr = omega arith in
      let e' : i + 0 ≡ i = omega arith in
      let at0 : region addr ≡ ram i = rw (e, e') at (region_span addr 4 0 i h (omega arith) s) in
      sym (
        ap
          (λ (t : SystemBus D).
            w (w (w t (u32 (addr + 1)) (u8 (val / 256))) (u32 (addr + 2)) (u8 (val / 65536)))
              (u32 (addr + 3)) (u8 (val / 16777216)))
          (write8_ram b addr i (u8 val) at0)
        ∙ ap
            (λ (t : SystemBus D).
              w (w t (u32 (addr + 2)) (u8 (val / 65536))) (u32 (addr + 3)) (u8 (val / 16777216)))
            (write8_ram b1 (u32 (addr + 1)) (i + 1) (u8 (val / 256))
              (region_span addr 4 1 i h (omega arith) s))
        ∙ ap (λ (t : SystemBus D). w t (u32 (addr + 3)) (u8 (val / 16777216)))
            (write8_ram b2 (u32 (addr + 2)) (i + 2) (u8 (val / 65536))
              (region_span addr 4 2 i h (omega arith) s))
        ∙ write8_ram b3 (u32 (addr + 3)) (i + 3) (u8 (val / 16777216))
            (region_span addr 4 3 i h (omega arith) s))

  write32_cut :
      (b : SystemBus D) (addr val : ℕ)
      → ram_span addr 4 ≡ none
      → write32 dev mem_only b addr val
        ≡ write_bytes dev mem_only
            (u8 val ∷ u8 (val / 256) ∷ u8 (val / 65536) ∷ u8 (val / 16777216) ∷ [])
            b
            addr
            0
  unfolding write32
  write32_cut b addr val s = ground arith

  pub write32_span :
      (b : SystemBus D) (addr val i : ℕ)
      → ram_span addr 4 ≡ some i
      → write32 dev mem_only b addr val ≡ record b { ram = store32 b.ram i val; idle_dirty = true }
  unfolding write32
  write32_span b addr val i s = ground arith

  -- A 32-bit write does what the processor's trait says by default: four byte writes in order.
  pub write32_lem :
      (b : SystemBus D) (addr val : ℕ)
      → addr < 0x100000000
      → write32 dev mem_only b addr val ≡ Bus.write32 (write8 dev mem_only) b addr val
  write32_lem b addr val h = elim (Option-cases (ram_span addr 4)) [
    | inl cut ↦
        write32_cut b addr val cut ∙ writes_bytes b addr val h ∙ sym (writes_default b addr val)
    | inr (i, s) ↦
        write32_span b addr val i s ∙ writes_ram b addr val i h s ∙ sym (writes_default b addr val)
  ]
