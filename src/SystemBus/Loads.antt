-- ===== src/SystemBus/Loads.antt =====
-- A 32-bit read of the bus is the trait's default over its bytes.
use ue2_c64u_emulator.Base.{
  ℕ, ◌+◌, ◌*◌, ◌%◌, ◌<◌, ◌≡◌, refl, sym, ap, ◌∙◌, arith, inl, inr, Bool, bit_or, u32, some, none,
  Option-cases, List,
}
use ue2_c64u_emulator.Base.Masks.{bit_or_fields, zero-bit_or}
use ue2_c64u_emulator.Rv32.Bus
use ue2_c64u_emulator.SystemBus.IoMap.{IoDevice, IoCtx}
use ue2_c64u_emulator.SystemBus.Access.{SystemBus, ram, region, ram_span, read8}
use ue2_c64u_emulator.SystemBus.Wide.{read_bytes, read32, from_le_bytes}
use ue2_c64u_emulator.SystemBus.Mirrors.{region_span}
use ue2_c64u_emulator.SystemBus.Bytes.{HoldsBytes, GivesByte, read8-GivesByte}

joined :
    (b0 b1 b2 b3 : ℕ)
    → b0 < 256
    → b1 < 256
    → b2 < 256
    → b3 < 256
    → bit_or (bit_or b0 (b1 * 256)) (bit_or b2 (b3 * 256) * 65536) ≡ from_le_bytes b0 b1 b2 b3
joined b0 b1 b2 b3 h0 h1 h2 h3 = ground (
  arith,
  bit_or_fields 8 b1 b0,
  bit_or_fields 8 b3 b2,
  bit_or_fields 16 (b2 + b3 * 256) (b0 + b1 * 256),
)

folded :
    (b0 b1 b2 b3 : ℕ)
    → b0 < 256
    → b1 < 256
    → b2 < 256
    → b3 < 256
    → bit_or (bit_or (bit_or (bit_or 0 (b0 * 1)) (b1 * 256)) (b2 * 65536)) (b3 * 16777216)
      ≡ from_le_bytes b0 b1 b2 b3
folded b0 b1 b2 b3 h0 h1 h2 h3 =
    let e : b0 * 1 ≡ b0 = omega arith in
    rw (e, zero-bit_or b0)
      (ground (
        arith,
        bit_or_fields 8 b1 b0,
        bit_or_fields 16 b2 (b0 + b1 * 256),
        bit_or_fields 24 b3 (b0 + b1 * 256 + b2 * 65536),
      ))

module _ {D : Type 0} (dev : IoDevice D) (mem_only : List D → Bool) where
  pub read8_ram :
      (b : SystemBus D) (a i : ℕ)
      → region a ≡ ram i
      → ◌≡◌ {A = ℕ × SystemBus D} (read8 dev mem_only b a) (b.ram i, b)
  unfolding read8
  read8_ram b a i e = ground arith

  -- Four bytes read in order, and the bus after them.
  abbrev read_0 : SystemBus D → ℕ → ℕ × SystemBus D
  read_0 b addr = read8 dev mem_only b addr

  abbrev read_1 : SystemBus D → ℕ → ℕ × SystemBus D
  read_1 b addr = read8 dev mem_only (read_0 b addr).1 (u32 (addr + 1))

  abbrev read_2 : SystemBus D → ℕ → ℕ × SystemBus D
  read_2 b addr = read8 dev mem_only (read_1 b addr).1 (u32 (addr + 2))

  abbrev read_3 : SystemBus D → ℕ → ℕ × SystemBus D
  read_3 b addr = read8 dev mem_only (read_2 b addr).1 (u32 (addr + 3))

  abbrev four_reads : SystemBus D → ℕ → ℕ × SystemBus D
  four_reads b addr = (
    from_le_bytes (read_0 b addr).0 (read_1 b addr).0 (read_2 b addr).0 (read_3 b addr).0,
    (read_3 b addr).1,
  )

  -- The fold when its first byte has been read.
  abbrev fold_from : ℕ × SystemBus D → ℕ → ℕ × SystemBus D
  fold_from r0 addr =
      let r1 = read8 dev mem_only r0.1 (u32 (addr + 1)) in
      let r2 = read8 dev mem_only r1.1 (u32 (addr + 2)) in
      let r3 = read8 dev mem_only r2.1 (u32 (addr + 3)) in
      (
        bit_or (bit_or (bit_or (bit_or 0 (r0.0 * 1)) (r1.0 * 256)) (r2.0 * 65536))
            (r3.0 * 16777216),
        r3.1,
      )

  both :
      {a a' : ℕ} {b b' : SystemBus D} → a ≡ a' → b ≡ b' → ◌≡◌ {A = ℕ × SystemBus D} (a, b) (a', b')
  both p q = rw (p, q) refl

  reads_ram :
      (b : SystemBus D) (addr i : ℕ)
      → addr < 0x100000000
      → ram_span addr 4 ≡ some i
      → ◌≡◌ {A = ℕ × SystemBus D}
          (from_le_bytes (b.ram i) (b.ram (i + 1)) (b.ram (i + 2)) (b.ram (i + 3)), b)
          (four_reads b addr)
  reads_ram b addr i h s =
      let e : u32 (addr + 0) ≡ addr = omega arith in
      let e' : i + 0 ≡ i = omega arith in
      let at0 : region addr ≡ ram i = rw (e, e') at (region_span addr 4 0 i h (omega arith) s) in
      rw
        (
          read8_ram b addr i at0,
          read8_ram b (u32 (addr + 1)) (i + 1) (region_span addr 4 1 i h (omega arith) s),
          read8_ram b (u32 (addr + 2)) (i + 2) (region_span addr 4 2 i h (omega arith) s),
          read8_ram b (u32 (addr + 3)) (i + 3) (region_span addr 4 3 i h (omega arith) s),
        )
        refl

  read32_cut :
      (b : SystemBus D) (addr : ℕ)
      → ram_span addr 4 ≡ none
      → read32 dev mem_only b addr ≡ read_bytes dev mem_only 4 b addr 0 0
  unfolding read32
  read32_cut b addr s = ground arith

  pub read32_span :
      (b : SystemBus D) (addr i : ℕ)
      → ram_span addr 4 ≡ some i
      → ◌≡◌ {A = ℕ × SystemBus D}
          (read32 dev mem_only b addr)
          (from_le_bytes (b.ram i) (b.ram (i + 1)) (b.ram (i + 2)) (b.ram (i + 3)), b)
  unfolding read32
  read32_span b addr i s = ground arith

  module _ (answers_byte : (d : D) (off : ℕ) (ctx : IoCtx) → (dev.read8 d off ctx).0 < 256)
      (keeps_bytes : (d : D) (off : ℕ) (ctx : IoCtx)
        → HoldsBytes ctx.ram
        → HoldsBytes (dev.read8 d off ctx).2.ram) where
    given_0 : (b : SystemBus D) (addr : ℕ) → HoldsBytes b.ram → GivesByte (read_0 b addr)
    given_0 b addr v = read8-GivesByte dev mem_only answers_byte keeps_bytes b addr v

    given_1 : (b : SystemBus D) (addr : ℕ) → HoldsBytes b.ram → GivesByte (read_1 b addr)
    given_1 b addr v =
        read8-GivesByte dev mem_only answers_byte keeps_bytes (read_0 b addr).1 (u32 (addr + 1))
          (given_0 b addr v).bytes

    given_2 : (b : SystemBus D) (addr : ℕ) → HoldsBytes b.ram → GivesByte (read_2 b addr)
    given_2 b addr v =
        read8-GivesByte dev mem_only answers_byte keeps_bytes (read_1 b addr).1 (u32 (addr + 2))
          (given_1 b addr v).bytes

    given_3 : (b : SystemBus D) (addr : ℕ) → HoldsBytes b.ram → GivesByte (read_3 b addr)
    given_3 b addr v =
        read8-GivesByte dev mem_only answers_byte keeps_bytes (read_2 b addr).1 (u32 (addr + 3))
          (given_2 b addr v).bytes

    reads_default :
        (b : SystemBus D) (addr : ℕ)
        → HoldsBytes b.ram
        → Bus.read32 (read8 dev mem_only) b addr ≡ four_reads b addr
    unfolding Bus.read32
    reads_default b addr v =
        let a3 : ((addr + 2) % 0x100000000 + 1) % 0x100000000 ≡ (addr + 3) % 0x100000000 =
          omega arith in
        let r2 = read_2 b addr in
        both
          (ap
              (λ (t : ℕ).
                bit_or (bit_or (read_0 b addr).0 ((read_1 b addr).0 * 256))
                  (bit_or r2.0 ((read8 dev mem_only r2.1 t).0 * 256) * 65536))
              a3
            ∙ joined (read_0 b addr).0 (read_1 b addr).0 r2.0 (read_3 b addr).0
                (given_0 b addr v).byte (given_1 b addr v).byte (given_2 b addr v).byte
                (given_3 b addr v).byte)
          (ap (λ (t : ℕ). (read8 dev mem_only r2.1 t).1) a3)

    reads_bytes :
        (b : SystemBus D) (addr : ℕ)
        → addr < 0x100000000
        → HoldsBytes b.ram
        → read_bytes dev mem_only 4 b addr 0 0 ≡ four_reads b addr
    unfolding read_bytes
    reads_bytes b addr h v =
        let e : u32 (addr + 0) ≡ addr = omega arith in
        ap (λ (t : ℕ). fold_from (read8 dev mem_only b t) addr) e
        ∙ both
            (folded (read_0 b addr).0 (read_1 b addr).0 (read_2 b addr).0 (read_3 b addr).0
              (given_0 b addr v).byte (given_1 b addr v).byte (given_2 b addr v).byte
              (given_3 b addr v).byte)
            refl

    -- A 32-bit read does what the processor's trait says by default, four byte reads in order with
    -- what each does to its device, when the memory holds bytes and the devices answer with
    -- bytes.
    pub read32_lem :
        (b : SystemBus D) (addr : ℕ)
        → addr < 0x100000000
        → HoldsBytes b.ram
        → read32 dev mem_only b addr ≡ Bus.read32 (read8 dev mem_only) b addr
    read32_lem b addr h v = elim (Option-cases (ram_span addr 4)) [
      | inl cut ↦ read32_cut b addr cut ∙ reads_bytes b addr h v ∙ sym (reads_default b addr v)
      | inr (i, s) ↦ read32_span b addr i s ∙ reads_ram b addr i h s ∙ sym (reads_default b addr v)
    ]
