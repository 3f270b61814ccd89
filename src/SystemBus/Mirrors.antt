-- ===== src/SystemBus/Mirrors.antt =====
-- Addresses that stay inside one mirror of the memory.
use ue2_c64u_emulator.Base.{
  ℕ, ◌+◌, ◌/◌, ◌%◌, ◌<◌, ◌≤◌, ◌≡◌, ◌≢◌, refl, arith, true, false, ◌==◌, has, u32, some,
}
use ue2_c64u_emulator.Base.Masks.{has_pow, bit_at-div}
use ue2_c64u_emulator.SystemBus.Access.{ram, region, ram_span, ram_size, is_memory}

pub is_memory_lem : (addr : ℕ) → is_memory addr ≡ (addr / 0x10000000 % 2 == 0)
unfolding has
is_memory_lem addr = ground (arith, has_pow 28 addr, bit_at-div 28 addr)

pub record Inside (addr len i : ℕ) : Type 0 where
  pub memory : addr / 0x10000000 % 2 ≡ 0
  pub page : addr / 65536 ≢ 0x8000
  pub room : addr % ram_size + len ≤ ram_size
  pub index : i ≡ addr % ram_size

pub span-Inside : (addr len i : ℕ) → ram_span addr len ≡ some i → Inside addr len i
unfolding ram_span
span-Inside addr len i s =
    let m = is_memory_lem addr in
    record {
      memory = ground arith;
      page = λ e. ground arith;
      room = ground arith;
      index = ground arith;
    }

pub region_span :
    (addr len k i : ℕ)
    → addr < 0x100000000
    → k < len
    → ram_span addr len ≡ some i
    → region (u32 (addr + k)) ≡ ram (i + k)
unfolding region
region_span addr len k i h l s =
    let p = span-Inside addr len i s in
    let a : u32 (addr + k) ≡ addr + k = omega (arith, p.room) in
    let memory : is_memory (addr + k) ≡ true =
      ground (arith, is_memory_lem (addr + k), p.memory, p.room) in
    let page : ((addr + k) / 65536 == 0x8000) ≡ false = ground (arith, p.page, p.room) in
    let index : (addr + k) % ram_size ≡ i + k = omega (arith, p.room, p.index) in
    rw (a, memory, page, index) refl
