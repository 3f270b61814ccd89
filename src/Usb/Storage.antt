-- ===== src/Usb/Storage.antt =====
-- crates/ue2-core/src/devices/usb/storage.rs: mass storage over the Bulk-Only Transport, with the SCSI commands
-- that the firmware's driver sends.
use ue2_c64u_emulator.Base.{
  ℕ, ◌+◌, ◌-◌, ◌*◌, ◌/◌, min, Bool, not, ◌&&◌, ◌==◌, leb, ltb, if◌then◌else◌, has, u8, Option, some,
  none, List, [], ◌∷◌, ◌++◌, length, get_or, replicate, take, drop,
}
use ue2_c64u_emulator.Usb.Function.{Reply, ack, packet, nak, stall, Setup, u32_at}

abbrev pub block_size : ℕ
block_size = 512

-- The medium: the number of its blocks and whether it is read only, reads of a number of bytes from a block on,
-- and writes that tell whether they went well.
pub record BlockBackend (M : Type 0) : Type 0 where
  pub blocks : M → ℕ
  pub read_only : M → Bool
  pub read_blocks : M → ℕ → ℕ → Option (List ℕ) × M
  pub write_blocks : M → ℕ → List ℕ → Bool × M

abbrev pub ep_in : ℕ
ep_in = 1

abbrev pub ep_out : ℕ
ep_out = 2

-- `CBW_SIGNATURE`, as a little-endian number.
abbrev pub cbw_signature : ℕ
cbw_signature = 0x43425355

abbrev pub csw_signature : List ℕ
csw_signature = 0x55 ∷ 0x53 ∷ 0x42 ∷ 0x53 ∷ []

abbrev pub inquiry_data : List ℕ
inquiry_data =
    0x00 ∷ 0x80 ∷ 0x04 ∷ 0x02 ∷ 0x1f ∷ 0x00 ∷ 0x00 ∷ 0x00 ∷ 0x55 ∷ 0x45 ∷ 0x32 ∷ 0x45 ∷ 0x4d ∷ 0x55
    ∷ 0x20 ∷ 0x20 ∷ 0x55 ∷ 0x53 ∷ 0x42 ∷ 0x20 ∷ 0x44 ∷ 0x69 ∷ 0x73 ∷ 0x6b ∷ 0x20 ∷ 0x49 ∷ 0x6d
    ∷ 0x61 ∷ 0x67 ∷ 0x65 ∷ 0x20 ∷ 0x20 ∷ 0x31 ∷ 0x2e ∷ 0x30 ∷ 0x30 ∷ []

pub record Sense : Type 0 where
  pub key : ℕ
  pub asc : ℕ
  pub ascq : ℕ

abbrev pub no_sense : Sense
no_sense = record { key = 0x00; asc = 0x00; ascq = 0x00 }

abbrev pub unrecovered_read_error : Sense
unrecovered_read_error = record { key = 0x03; asc = 0x11; ascq = 0x00 }

abbrev pub write_error : Sense
write_error = record { key = 0x03; asc = 0x0c; ascq = 0x00 }

abbrev pub invalid_opcode : Sense
invalid_opcode = record { key = 0x05; asc = 0x20; ascq = 0x00 }

abbrev pub lba_out_of_range : Sense
lba_out_of_range = record { key = 0x05; asc = 0x21; ascq = 0x00 }

abbrev pub write_protected : Sense
write_protected = record { key = 0x07; asc = 0x27; ascq = 0x00 }

-- A command: `cb` has 16 bytes.
pub record Cbw : Type 0 where
  pub tag : ℕ
  pub length : ℕ
  pub data_in : Bool
  pub cb : List ℕ

unfoldable pub parse : List ℕ → Option Cbw
parse payload =
    if (length payload == 31) && (u32_at payload 0 == cbw_signature)
    then some record {
      tag = u32_at payload 4;
      length = u32_at payload 8;
      data_in = has (get_or payload 12 0) 0x80;
      cb = drop 15 payload;
    }
    else none

pub record Csw : Type 0 where
  pub tag : ℕ
  pub residue : ℕ
  pub status : ℕ

abbrev pub le_bytes : ℕ → List ℕ
le_bytes n = u8 n ∷ u8 (n / 256) ∷ u8 (n / 65536) ∷ u8 (n / 16777216) ∷ []

abbrev pub be_bytes : ℕ → List ℕ
be_bytes n = u8 (n / 16777216) ∷ u8 (n / 65536) ∷ u8 (n / 256) ∷ u8 n ∷ []

unfoldable pub bytes : Csw → List ℕ
bytes c = csw_signature ++ (le_bytes c.tag ++ (le_bytes c.residue ++ (c.status ∷ [])))

pub data Phase : Type 0 where
  command : Phase
  data_in : (payload : List ℕ) → (sent : ℕ) → Csw → Phase
  data_out : Cbw → (payload : List ℕ) → Phase
  status : Csw → Phase

pub record Storage (M : Type 0) : Type 0 where
  pub backend : M
  pub phase : Phase
  pub sense : Sense

pub data Outcome : Type 0 where
  done : List ℕ → Outcome
  failed : Sense → Outcome

-- `Vec::resize` with 0
abbrev pub resize : List ℕ → ℕ → List ℕ
resize xs n = take n (xs ++ replicate n 0)

module _ {M : Type 0} where
  unfoldable pub reset : Storage M → Storage M
  reset s = record s { phase = command; sense = no_sense }

module _ {M : Type 0} (dev : BlockBackend M) where
  -- `none` is an error of the caller: a medium of no blocks.
  unfoldable pub new : M → Option (Storage M)
  new backend =
      if dev.blocks backend == 0
      then none
      else some record { backend = backend; phase = command; sense = no_sense }

  unfoldable pub replace_backend : Storage M → M → Option (M × Storage M)
  replace_backend s backend =
      if dev.blocks backend == 0
      then none
      else some (s.backend, record (reset s) { backend = backend })

  unfoldable pub read_10 : Storage M → ℕ → ℕ → Outcome × Storage M
  read_10 s lba blocks =
      let r = dev.read_blocks s.backend lba (blocks * block_size) in
      if ltb (dev.blocks s.backend) (lba + blocks) then (failed lba_out_of_range, s) else (
        elim (r.0) [ some payload ↦ done payload | none ↦ failed unrecovered_read_error ],
        record s { backend = r.1 },
      )

  -- A short data stage writes only its whole blocks.
  unfoldable pub write_10 : Storage M → ℕ → ℕ → List ℕ → Outcome × Storage M
  write_10 s lba blocks out =
      let len = min (blocks * block_size) (length out) / block_size * block_size in
      let w = dev.write_blocks s.backend lba (take len out) in
      if dev.read_only s.backend
      then (failed write_protected, s)
      else if ltb (dev.blocks s.backend) (lba + blocks)
      then (failed lba_out_of_range, s)
      else ((if w.0 then done [] else failed write_error), record s { backend = w.1 })

  unfoldable pub scsi : Storage M → List ℕ → List ℕ → Outcome × Storage M
  scsi s cb out =
      let lba =
        ((get_or cb 2 0 * 256 + get_or cb 3 0) * 256 + get_or cb 4 0) * 256 + get_or cb 5 0 in
      let blocks = get_or cb 7 0 * 256 + get_or cb 8 0 in
      let op = get_or cb 0 0 in
      if op == 0x00
      then (done [], s)
      else if op == 0x03
      then (
        done (
            0x70 ∷ 0 ∷ s.sense.key ∷ 0 ∷ 0 ∷ 0 ∷ 0 ∷ 10 ∷ 0 ∷ 0 ∷ 0 ∷ 0 ∷ s.sense.asc ∷ s.sense.ascq
            ∷ 0 ∷ 0 ∷ 0 ∷ 0 ∷ []),
        record s { sense = no_sense },
      )
      else if op == 0x12
      then (done inquiry_data, s)
      else if op == 0x25
      then (done (be_bytes (min (dev.blocks s.backend - 1) 0xffffffff) ++ be_bytes block_size), s)
      else if op == 0x28
      then read_10 s lba blocks
      else if op == 0x2a
      then write_10 s lba blocks out
      else (failed invalid_opcode, s)

  -- The SCSI command with what was received; a failure is kept for REQUEST SENSE.
  unfoldable pub finish : Storage M → Cbw → List ℕ → (List ℕ × Csw) × Storage M
  finish s cbw out =
      let r = scsi s cbw.cb out in
      elim (r.0) [
        | done payload ↦ ((payload, record { tag = cbw.tag; residue = 0; status = 0 }), r.1)
        | failed sense ↦ (
          ([], record { tag = cbw.tag; residue = cbw.length; status = 1 }),
          record r.1 { sense = sense },
        )
      ]

  -- The data stage has exactly the length that the command gives.
  unfoldable pub start : Storage M → Cbw → Storage M
  start s cbw =
      let r = finish s cbw [] in
      if not cbw.data_in && ltb 0 cbw.length
      then record s { phase = data_out cbw [] }
      else if cbw.length == 0
      then record r.1 { phase = status r.0.1 }
      else record r.1 { phase = data_in (resize r.0.0 cbw.length) 0 r.0.1 }

  -- A packet to the host of at most `max` bytes.
  unfoldable pub input : Storage M → ℕ → ℕ → Reply × Storage M
  input s ep max = if not (ep == ep_in) then (stall, s) else elim (s.phase) [
    | data_in payload sent csw ↦
        let n = min max (length payload - sent) in
        (
          packet (take n (drop sent payload)),
          record s {
            phase =
                if sent + n == length payload then status csw else data_in payload (sent + n) csw;
          },
        )
    | status csw ↦ (packet (take (min max 13) (bytes csw)), record s { phase = command })
    | command ↦ (nak, s)
    | data_out cbw payload ↦ (nak, s)
  ]

  -- A packet from the host.
  unfoldable pub output : Storage M → ℕ → List ℕ → Reply × Storage M
  output s ep payload = if not (ep == ep_out) then (stall, s) else elim (s.phase) [
    | command ↦ elim (parse payload) [ some cbw ↦ (ack, start s cbw) | none ↦ (stall, s) ]
    | data_out cbw received ↦
        let all = received ++ payload in
        let r = finish s cbw all in
        (
          ack,
          if leb cbw.length (length all)
              then record r.1 { phase = status r.0.1 }
              else record s { phase = data_out cbw all },
        )
    | data_in bytes sent csw ↦ (stall, s)
    | status csw ↦ (stall, s)
  ]

  unfoldable pub control : Setup → Option (List ℕ)
  control setup =
      if (setup.request_type == 0xa1) && (setup.request == 0xfe)
      then some (0 ∷ [])
      else if (setup.request_type == 0x02) && (setup.request == 0x01) && (setup.value == 0)
      then some []
      else none
