-- ===== src/SystemBus/Plain.antt =====
-- The memory of the bus is plain memory to the processor's default wide accesses, within one mirror.
use ue2_c64u_emulator.Base.{
  ℕ, ◌/◌, ◌≡◌, ap, ◌∙◌, sym, arith, Bool, true, List, store, ◌==◌, if◌then◌else◌,
}
use ue2_c64u_emulator.Rv32.LoadStore.{IsRam}
use ue2_c64u_emulator.SystemBus.IoMap.{IoDevice}
use ue2_c64u_emulator.SystemBus.Access.{SystemBus, ram, region, ram_index, ram_size, read8, write8}
use ue2_c64u_emulator.SystemBus.Loads.{read8_ram}
use ue2_c64u_emulator.SystemBus.Stores.{write8_ram}

-- An address at which mirror `m` of the memory answers.
abbrev pub IsInMirror : ℕ → ℕ → Type 0
IsInMirror m a = (region a ≡ ram (ram_index a)) × (a / ram_size ≡ m)

module _ {D : Type 0} (dev : IoDevice D) (mem_only : List D → Bool) where
  -- The byte that is read at `a'` after one has been written at `a`.
  read8-write8 :
      (b : SystemBus D) (a i v a' j : ℕ)
      → region a ≡ ram i
      → region a' ≡ ram j
      → (read8 dev mem_only (write8 dev mem_only b a v) a').0 ≡ (if j == i then v else b.ram j)
  unfolding store
  read8-write8 b a i v a' j e f =
      ap (λ (t : SystemBus D). (read8 dev mem_only t a').0) (write8_ram dev mem_only b a i v e)
      ∙ ap (λ (t : ℕ × SystemBus D). t.0)
          (read8_ram dev mem_only (record b { ram = store b.ram i v; idle_dirty = true }) a' j f)

  -- The bytes of the bus at the addresses of one mirror of the memory are plain memory.
  pub mirror-IsRam : (m : ℕ) → IsRam (read8 dev mem_only) (write8 dev mem_only) (IsInMirror m)
  mirror-IsRam m = record {
    quiet =
        λ b a p. ap (λ (t : ℕ × SystemBus D). t.1) (read8_ram dev mem_only b a (ram_index a) p.0);
    sees = λ b a v a' p q h.
        read8-write8 b a (ram_index a) v a' (ram_index a') p.0 q.0
        ∙ same_index (b.ram (ram_index a')) a a' v p.1 q.1
        ∙ ap (λ (t : ℕ). if a == a' then v else t)
            (sym
              (ap (λ (t : ℕ × SystemBus D). t.0) (read8_ram dev mem_only b a' (ram_index a') q.0)));
  }
    where
      same_index :
          (old a a' v : ℕ)
          → a / ram_size ≡ m
          → a' / ram_size ≡ m
          → (if ram_index a' == ram_index a then v else old) ≡ (if a == a' then v else old)
      same_index old a a' v p q = ground arith
