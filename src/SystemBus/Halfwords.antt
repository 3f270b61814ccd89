-- ===== src/SystemBus/Halfwords.antt =====
-- 16-bit accesses, and all wide accesses together.
use ue2_c64u_emulator.Base.{
  ℕ, ◌+◌, ◌*◌, ◌/◌, ◌<◌, ◌≡◌, sym, ap, ◌∙◌, arith, inl, inr, Bool, true, bit_or, u8, u32, some,
  none, Option-cases, List, store,
}
use ue2_c64u_emulator.Base.Masks.{bit_or_fields}
use ue2_c64u_emulator.Rv32.Bus
use ue2_c64u_emulator.SystemBus.IoMap.{IoDevice, IoCtx}
use ue2_c64u_emulator.SystemBus.Access.{SystemBus, ram, region, ram_span, read8, write8}
use ue2_c64u_emulator.SystemBus.Wide.{read16, write16, read32, write32, store16}
use ue2_c64u_emulator.SystemBus.Mirrors.{region_span}
use ue2_c64u_emulator.SystemBus.Bytes.{HoldsBytes}
use ue2_c64u_emulator.SystemBus.Stores.{write8_ram, write32_lem}
use ue2_c64u_emulator.SystemBus.Loads.{read8_ram, read32_lem}

module _ {D : Type 0} (dev : IoDevice D) (mem_only : List D → Bool) where
  first_ram : (addr i : ℕ) → addr < 0x100000000 → ram_span addr 2 ≡ some i → region addr ≡ ram i
  first_ram addr i h s =
      let e : u32 (addr + 0) ≡ addr = omega arith in
      let e' : i + 0 ≡ i = omega arith in rw (e, e') at (region_span addr 2 0 i h (omega arith) s)

  write16_cut :
      (b : SystemBus D) (addr val : ℕ)
      → ram_span addr 2 ≡ none
      → write16 dev mem_only b addr val ≡ Bus.write16 (write8 dev mem_only) b addr val
  unfolding write16 Bus.write16
  write16_cut b addr val s = ground arith

  write16_span :
      (b : SystemBus D) (addr val i : ℕ)
      → ram_span addr 2 ≡ some i
      → write16 dev mem_only b addr val ≡ record b { ram = store16 b.ram i val; idle_dirty = true }
  unfolding write16
  write16_span b addr val i s = ground arith

  write16_ram :
      (b : SystemBus D) (addr val i : ℕ)
      → addr < 0x100000000
      → ram_span addr 2 ≡ some i
      → record b { ram = store16 b.ram i val; idle_dirty = true }
        ≡ Bus.write16 (write8 dev mem_only) b addr val
  unfolding Bus.write16
  write16_ram b addr val i h s =
      let b1 = record b { ram = store b.ram i (u8 val); idle_dirty = true } in
      sym (
        ap (λ (t : SystemBus D). write8 dev mem_only t (u32 (addr + 1)) (u8 (val / 256)))
          (write8_ram dev mem_only b addr i (u8 val) (first_ram addr i h s))
        ∙ write8_ram dev mem_only b1 (u32 (addr + 1)) (i + 1) (u8 (val / 256))
            (region_span addr 2 1 i h (omega arith) s))

  write16_lem :
      (b : SystemBus D) (addr val : ℕ)
      → addr < 0x100000000
      → write16 dev mem_only b addr val ≡ Bus.write16 (write8 dev mem_only) b addr val
  write16_lem b addr val h = elim (Option-cases (ram_span addr 2)) [
    | inl cut ↦ write16_cut b addr val cut
    | inr (i, s) ↦ write16_span b addr val i s ∙ write16_ram b addr val i h s
  ]

  read16_cut :
      (b : SystemBus D) (addr : ℕ)
      → ram_span addr 2 ≡ none
      → read16 dev mem_only b addr ≡ Bus.read16 (read8 dev mem_only) b addr
  unfolding read16 Bus.read16
  read16_cut b addr s = ground arith

  read16_span :
      (b : SystemBus D) (addr i : ℕ)
      → ram_span addr 2 ≡ some i
      → ◌≡◌ {A = ℕ × SystemBus D} (read16 dev mem_only b addr) (b.ram i + b.ram (i + 1) * 256, b)
  unfolding read16
  read16_span b addr i s = ground arith

  -- Two bytes read in order.
  abbrev two_reads : ℕ × SystemBus D → ℕ → ℕ × SystemBus D
  two_reads lo a = let hi = read8 dev mem_only lo.1 a in (bit_or lo.0 (hi.0 * 256), hi.1)

  read16_ram :
      (b : SystemBus D) (addr i : ℕ)
      → addr < 0x100000000
      → HoldsBytes b.ram
      → ram_span addr 2 ≡ some i
      → ◌≡◌ {A = ℕ × SystemBus D}
          (b.ram i + b.ram (i + 1) * 256, b)
          (Bus.read16 (read8 dev mem_only) b addr)
  unfolding Bus.read16
  read16_ram b addr i h v s =
      let join : bit_or (b.ram i) (b.ram (i + 1) * 256) ≡ b.ram i + b.ram (i + 1) * 256 =
        bit_or_fields 8 (b.ram (i + 1)) (b.ram i) (v i) in
      sym (
        ap (λ (t : ℕ × SystemBus D). two_reads t (u32 (addr + 1)))
          (read8_ram dev mem_only b addr i (first_ram addr i h s))
        ∙ ap (λ (t : ℕ × SystemBus D). halves (b.ram i) t)
            (read8_ram dev mem_only b (u32 (addr + 1)) (i + 1)
              (region_span addr 2 1 i h (omega arith) s))
        ∙ ap (λ (t : ℕ). with_bus t b) join)
    where
      halves : ℕ → ℕ × SystemBus D → ℕ × SystemBus D
      halves lo hi = (bit_or lo (hi.0 * 256), hi.1)

      with_bus : ℕ → SystemBus D → ℕ × SystemBus D
      with_bus n c = (n, c)

  -- Every 16- and 32-bit access of the bus does what the processor's trait says by default: its bytes
  -- one after the other, least significant first, each with what it does to its device, when the
  -- memory holds bytes and the devices answer with bytes.
  pub wide_lem :
      ((d : D) (off : ℕ) (ctx : IoCtx) → (dev.read8 d off ctx).0 < 256)
      → ((d : D) (off : ℕ) (ctx : IoCtx)
          → HoldsBytes ctx.ram
          → HoldsBytes (dev.read8 d off ctx).2.ram)
      → (b : SystemBus D) (addr val : ℕ) → addr < 0x100000000
      → HoldsBytes b.ram
      → (read16 dev mem_only b addr ≡ Bus.read16 (read8 dev mem_only) b addr)
        × (read32 dev mem_only b addr ≡ Bus.read32 (read8 dev mem_only) b addr)
        × (write16 dev mem_only b addr val ≡ Bus.write16 (write8 dev mem_only) b addr val)
        × (write32 dev mem_only b addr val ≡ Bus.write32 (write8 dev mem_only) b addr val)
  wide_lem answers keeps b addr val h v = (
    half,
    read32_lem dev mem_only answers keeps b addr h v,
    write16_lem b addr val h,
    write32_lem dev mem_only b addr val h,
  )
    where
      half : read16 dev mem_only b addr ≡ Bus.read16 (read8 dev mem_only) b addr
      half = elim (Option-cases (ram_span addr 2)) [
        | inl cut ↦ read16_cut b addr cut
        | inr (i, s) ↦ read16_span b addr i s ∙ read16_ram b addr i h v s
      ]
