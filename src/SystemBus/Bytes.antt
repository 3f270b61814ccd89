-- ===== src/SystemBus/Bytes.antt =====
-- What is read from the bus are bytes, when the memory holds bytes and the devices answer with bytes.
use ue2_c64u_emulator.Base.{
  ℕ, ◌<◌, ◌≡◌, refl, arith, Bool, true, false, not, ◌&&◌, ◌||◌, leb, ltb, if_elim, option_elim,
  Option, some, none, List, get_elem?, Memory,
}
use ue2_c64u_emulator.SystemBus.IoMap.{IoDevice, IoCtx, resolve}
use ue2_c64u_emulator.SystemBus.Absent.{Block, Mode, is_block, is_no_ack, core}
use ue2_c64u_emulator.SystemBus.Access.{
  SystemBus, Region, ram, io, open_bus, region, record_access, record_if, absent_at, answer_absent,
  absent_access, context, returned, touched, device_read, io_read8, read8,
}

abbrev pub HoldsBytes : Memory → Type 0
HoldsBytes m = (i : ℕ) → m i < 256

-- A byte, and a bus whose memory holds bytes.
pub record GivesByte {D : Type 0} (r : ℕ × SystemBus D) : Type 0 where
  pub byte : r.0 < 256
  pub bytes : HoldsBytes r.1.ram

module _ {D : Type 0} where
  record_if-ram :
      (test : Bool) (b : SystemBus D) (write : Bool) (addr val : ℕ) (mapped on_io : Bool)
      → (record_if test b write addr val mapped on_io).ram ≡ b.ram
  unfolding record_access
  record_if-ram true b write addr val mapped on_io = refl
  record_if-ram false b write addr val mapped on_io = refl

  logged :
      (test : Bool) (b : SystemBus D) (write : Bool) (addr val : ℕ) (mapped on_io : Bool)
      → HoldsBytes b.ram
      → HoldsBytes (record_if test b write addr val mapped on_io).ram
  logged test b write addr val mapped on_io h i =
      rw (record_if-ram test b write addr val mapped on_io) (h i)

module _ {D : Type 0} (dev : IoDevice D) (mem_only : List D → Bool)
    (answers_byte : (d : D) (off : ℕ) (ctx : IoCtx) → (dev.read8 d off ctx).0 < 256)
    (keeps_bytes : (d : D) (off : ℕ) (ctx : IoCtx)
      → HoldsBytes ctx.ram
      → HoldsBytes (dev.read8 d off ctx).2.ram) where
  device_read-GivesByte :
      (b : SystemBus D) (addr : ℕ) → HoldsBytes b.ram → GivesByte (device_read dev mem_only b addr)
  unfolding device_read
  device_read-GivesByte b addr h =
      option_elim GivesByte (resolve b.io addr) _ _
        record {
          byte = omega arith;
          bytes = logged (b.trace_io || b.log_unmapped) b false addr 0 false true h;
        }
        (λ at.
          option_elim GivesByte (get_elem? b.io.devices at.0) _ _
            record { byte = omega arith; bytes = h }
            (λ d.
              let r = dev.read8 d at.1 (context b) in
              record {
                byte = answers_byte d at.1 (context b);
                bytes =
                    logged b.trace_io (returned b at.0 r.1 r.2) false addr r.0 true true
                      (keeps_bytes d at.1 (context b) h);
              }))

  -- What the absent blocks answer, if they do.
  abbrev Answer : Option (ℕ × SystemBus D) → Type 0
  Answer none = Unit {0}
  Answer (some r) = GivesByte r

  record AnswersByte (o : Option (ℕ × SystemBus D)) : Type 0 where
    answer : Answer o

  answer_absent-GivesByte :
      (b : SystemBus D) (block : Block) (mode : Mode) (addr : ℕ)
      → HoldsBytes b.ram
      → GivesByte (answer_absent dev mem_only b block mode addr false 0)
  unfolding answer_absent
  answer_absent-GivesByte b block mode addr h =
      if_elim GivesByte
        (is_block block core
          && is_no_ack mode
          && not false
          && leb 0x1005d400 addr
          && ltb addr 0x1005d800
          && not (mem_only b.io.devices))
        _ _ record { byte = omega arith; bytes = logged b.trace_io b false addr 0xff true true h }
        record {
          byte = omega arith;
          bytes =
              logged b.trace_io _ false addr 0 true true
                (if_elim (λ (t : SystemBus D). HoldsBytes t.ram) (is_no_ack mode) _ _ h h);
        }

  absent_access-AnswersByte :
      (b : SystemBus D) (addr : ℕ)
      → HoldsBytes b.ram
      → AnswersByte (absent_access dev mem_only b addr false 0)
  unfolding absent_access
  absent_access-AnswersByte b addr h =
      option_elim AnswersByte b.noack _ _
        (option_elim AnswersByte (absent_at b addr) _ _ record { answer = tt }
          (λ at. record { answer = answer_absent-GivesByte b at.0 at.1 addr h }))
        (λ n. record { answer = record { byte = omega arith; bytes = h } })

  answered :
      (o : Option (ℕ × SystemBus D)) (r : ℕ × SystemBus D)
      → AnswersByte o
      → GivesByte r
      → GivesByte {D = D} (elim o [ some a ↦ a | none ↦ r ])
  answered none r a h = h
  answered (some s) r a h = a.answer

  pub read8-GivesByte :
      (b : SystemBus D) (addr : ℕ) → HoldsBytes b.ram → GivesByte (read8 dev mem_only b addr)
  unfolding read8 io_read8
  read8-GivesByte b addr h = at (region addr)
    where
      at :
          (r : Region)
          → GivesByte {D = D} (elim r as (λ t. ℕ × SystemBus D) [
            | ram i ↦ (b.ram i, b)
            | io ↦ io_read8 dev mem_only b addr
            | open_bus ↦ (0, record_if b.log_unmapped b false addr 0 false false)
          ])
      at (ram i) = record { byte = h i; bytes = h }
      at io =
          answered _ _ (absent_access-AnswersByte (touched b) addr h)
            (device_read-GivesByte (touched b) addr h)
      at open_bus = record {
        byte = omega arith;
        bytes = logged b.log_unmapped b false addr 0 false false h;
      }
