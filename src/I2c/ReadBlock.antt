-- ===== src/I2c/ReadBlock.antt =====
-- The firmware's block read of the EDID: segment, address, repeated start, bytes, stop.
use ue2_c64u_emulator.Base.{
  ℕ, zero, suc, ◌+◌, ◌*◌, ◌≡◌, refl, ap, ap₂, ◌∙◌, arith, Bool, true, false, if◌then◌else◌,
  from_bool, has, u8, Option, some, none, List, [], ◌∷◌, get_or,
}
use ue2_c64u_emulator.I2c.Edid.{edid_bytes}
use ue2_c64u_emulator.I2c.Master.{
  Target, edid_read, segment_write, edid_write, ddc_read, HwI2c, get, select, accept, transmit,
  receive, write8,
}

-- `n` bytes of the EDID from the address on, which wraps within the segment; 0xff beyond the EDID.
unfoldable pub edid_from : ℕ → ℕ → ℕ → List ℕ
edid_from segment pointer zero = []
edid_from segment pointer (suc n) =
    get_or edid_bytes (segment * 256 + pointer) 0xff ∷ edid_from segment (u8 (pointer + 1)) n

-- The receive strobe and a read of the data register, `n` times; only the last byte is not acknowledged.
unfoldable pub receives : ℕ → HwI2c → List ℕ × HwI2c
receives zero h = ([], h)
receives (suc zero) h = let g = write8 h 0x04 1 in (get g 0x00 ∷ [], g)
receives (suc (suc n)) h =
    let g = write8 h 0x05 1 in let more = receives (suc n) g in (get g 0x00 ∷ more.0, more.1)

-- One byte to the bus, after a repeated start if so told.
unfoldable pub send : HwI2c → Bool × ℕ → HwI2c
send h (restart, byte) = write8 (if restart then write8 h 0x02 1 else h) 0x00 byte

-- Bytes to the bus; the driver gives up when the status is busy or shows no acknowledge.
unfoldable pub sends : HwI2c → List (Bool × ℕ) → Option HwI2c
sends h [] = some h
sends h (b ∷ bs) = let g = send h b in if has (get g 0x01) 0x84 then none else sends g bs

-- `i2c_read_block_ext` of the firmware's driver, as i2c.rs's tests run it; `none` is its failure.
unfoldable pub read_block : HwI2c → ℕ → ℕ → ℕ → Option (List ℕ × HwI2c)
read_block h segment pointer n =
    elim (sends h
      ((false, 0x60) ∷ (false, segment) ∷ (true, 0xa0) ∷ (false, pointer) ∷ (true, 0xa1) ∷ [])) [
        | some g ↦ (let r = receives n g in some (r.0, write8 r.1 0x03 1))
        | none ↦ none
      ]

-- The master after a start and an address byte.
abbrev addressed : HwI2c → Target → HwI2c
addressed h target = record h {
  started = true;
  addressing = false;
  target = target;
  data_out = 0xff;
}

status_lem : (h : HwI2c) → has (get h 0x01) 0x84 ≡ false
unfolding get has
status_lem h = started_lem h.started
  where
    started_lem : (b : Bool) → has (from_bool b) 0x84 ≡ false
    started_lem true = unfold has in refl
    started_lem false = unfold has in refl

sends_lem :
    (h : HwI2c) (b : Bool × ℕ) (bs : List (Bool × ℕ)) (g : HwI2c)
    → send h b ≡ g
    → sends h (b ∷ bs) ≡ sends g bs
unfolding sends
sends_lem h b bs g e =
    ap (λ (t : Bool). if t then none else sends (send h b) bs) (status_lem (send h b))
    ∙ ap (λ (t : HwI2c). sends t bs) e

-- A first byte after a stop, or one after a repeated start, is an address.
first_lem :
    (h : HwI2c)
    → h.channel ≡ 0
    → h.started ≡ false
    → send h (false, 0x60) ≡ addressed h segment_write
unfolding send write8 transmit select
first_lem h c s = ground arith

again_lem :
    (h : HwI2c) (byte : ℕ) (target : Target)
    → select h.channel byte ≡ target
    → h.started ≡ true
    → send h (true, byte) ≡ addressed h target
unfolding send write8 transmit
again_lem h byte target e s = ground (arith, ap (addressed h) e)

select_pointer : select 0 0xa0 ≡ edid_write false
unfolding select
select_pointer = refl

select_read : select 0 0xa1 ≡ edid_read
unfolding select
select_read = refl

segment_lem :
    (h : HwI2c) (segment : ℕ)
    → send (addressed h segment_write) (false, segment)
      ≡ record (addressed h segment_write) { ddc = record (h.ddc) { segment = segment } }
unfolding send write8 transmit accept
segment_lem h segment = refl

pointer_lem :
    (h : HwI2c) (pointer : ℕ)
    → send (addressed h (edid_write false)) (false, pointer)
      ≡ record (addressed h (edid_write true)) { ddc = record (h.ddc) { pointer = pointer } }
unfolding send write8 transmit accept
pointer_lem h pointer = refl

-- The master when the read has been addressed.
abbrev opened : HwI2c → ℕ → ℕ → HwI2c
opened h segment pointer = record (addressed h edid_read) {
  ddc = record { pointer = pointer; segment = segment };
}

opened_lem :
    (h : HwI2c) (segment pointer : ℕ)
    → h.channel ≡ 0
    → h.started ≡ false
    → sends h
        ((false, 0x60) ∷ (false, segment) ∷ (true, 0xa0) ∷ (false, pointer) ∷ (true, 0xa1) ∷ [])
      ≡ some (opened h segment pointer)
unfolding sends
opened_lem h segment pointer c s =
    let to_segment = record (addressed h segment_write) {
      ddc = record (h.ddc) { segment = segment };
    } in
    let to_pointer = record (addressed h (edid_write true)) {
      ddc = record { pointer = pointer; segment = segment };
    } in
    sends_lem h (false, 0x60)
      ((false, segment) ∷ (true, 0xa0) ∷ (false, pointer) ∷ (true, 0xa1) ∷ []) _ (first_lem h c s)
    ∙ sends_lem (addressed h segment_write) (false, segment)
        ((true, 0xa0) ∷ (false, pointer) ∷ (true, 0xa1) ∷ []) _ (segment_lem h segment)
    ∙ sends_lem to_segment (true, 0xa0) ((false, pointer) ∷ (true, 0xa1) ∷ []) _
        (again_lem to_segment 0xa0 (edid_write false)
          (ap (λ (n : ℕ). select n 0xa0) c ∙ select_pointer) refl)
    ∙ sends_lem (addressed to_segment (edid_write false)) (false, pointer) ((true, 0xa1) ∷ []) _
        (pointer_lem to_segment pointer)
    ∙ sends_lem to_pointer (true, 0xa1) [] _
        (again_lem to_pointer 0xa1 edid_read (ap (λ (n : ℕ). select n 0xa1) c ∙ select_read) refl)

-- What a received byte is, and what the read leaves for the next one.
record Received (h g : HwI2c) : Type 0 where
  byte : get g 0x00 ≡ get_or edid_bytes (h.ddc.segment * 256 + h.ddc.pointer) 0xff
  target : g.target ≡ edid_read
  segment : g.ddc.segment ≡ h.ddc.segment
  pointer : g.ddc.pointer ≡ u8 (h.ddc.pointer + 1)
  channel : g.channel ≡ h.channel

nack_lem : (h : HwI2c) → h.target ≡ edid_read → Received h (write8 h 0x04 1)
unfolding write8 receive ddc_read get
nack_lem h e =
    rw e (record { byte = refl; target = refl; segment = refl; pointer = refl; channel = refl })

ack_lem : (h : HwI2c) → h.target ≡ edid_read → Received h (write8 h 0x05 1)
unfolding write8 receive ddc_read get
ack_lem h e =
    rw e (record { byte = refl; target = refl; segment = refl; pointer = refl; channel = refl })

receives-edid :
    (n : ℕ) (h : HwI2c)
    → h.target ≡ edid_read
    → ((receives n h).0 ≡ edid_from h.ddc.segment h.ddc.pointer n)
      × ((receives n h).1.channel ≡ h.channel)
unfolding receives edid_from
receives-edid zero h e = (refl, refl)
receives-edid (suc zero) h e = let r = nack_lem h e in (ap (λ (v : ℕ). v ∷ []) r.byte, r.channel)
receives-edid (suc (suc n)) h e =
    let r = ack_lem h e in
    let more = receives-edid (suc n) (write8 h 0x05 1) r.target in
    (
      ap₂ (λ (v : ℕ) (vs : List ℕ). v ∷ vs) r.byte
          (more.0 ∙ ap₂ (λ (s p : ℕ). edid_from s p (suc n)) r.segment r.pointer),
      more.1 ∙ r.channel,
    )

-- The firmware's block read on the first bus, from a stopped bus and whatever was read or addressed
-- before: every byte is acknowledged, the bytes are the EDID's of the segment from the address on, and the bus is
-- stopped again, on the first segment.
pub read_block_lem :
    (h : HwI2c) (segment pointer n : ℕ)
    → h.channel ≡ 0
    → h.started ≡ false
    → (t : HwI2c) × (read_block h segment pointer n ≡ some (edid_from segment pointer n, t))
      × (t.channel ≡ 0)
      × (t.started ≡ false)
      × (t.ddc.segment ≡ 0)
unfolding read_block
read_block_lem h segment pointer n c s =
    let g = opened h segment pointer in
    let got = receives-edid n g refl in
    let r = receives n g in
    (
      write8 r.1 0x03 1,
      ap finished (opened_lem h segment pointer c s)
          ∙ ap (λ (v : List ℕ). some (v, write8 r.1 0x03 1)) got.0,
      unfold write8 in (got.1 ∙ c),
      unfold write8 in refl,
      unfold write8 in refl,
    )
  where
    finished : Option HwI2c → Option (List ℕ × HwI2c)
    finished o = elim o [
      | some g ↦ (let r = receives n g in some (r.0, write8 r.1 0x03 1))
      | none ↦ none
    ]
