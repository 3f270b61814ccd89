-- ===== src/Usb/Sense.antt =====
-- Commands that fail, what the host learns of it, and the blocks that a command can reach.
use ue2_c64u_emulator.Base.{
  ℕ, ◌+◌, ◌*◌, ◌/◌, ◌%◌, ◌<◌, ◌≤◌, ◌≡◌, refl, ap, ◌∙◌, arith, min, inl, inr, Bool, true, false, ltb,
  Bool-cases, Option, some, List, [], ◌∷◌, length, length-take, take, take_all, has, get_or,
  replicate,
}
use ue2_c64u_emulator.Usb.Function.{Reply, packet}
use ue2_c64u_emulator.Usb.Storage.{
  Storage, BlockBackend, command, Cbw, Csw, parse, bytes, finish, output, input, resize, ep_in,
  ep_out, scsi, read_10, write_10, Outcome, done, failed, Sense, no_sense,
}
use ue2_c64u_emulator.Usb.Exchange.{collect, length-replicate}
use ue2_c64u_emulator.Usb.Transfers.{command_packet, read_exchange, finish_done, same_cbw}

-- REQUEST SENSE for 18 bytes.
abbrev pub sense_cbw : ℕ → Cbw
sense_cbw tag = record { tag = tag; length = 18; data_in = true; cb = 0x03 ∷ replicate 15 0 }

-- The sense data of 18 bytes.
abbrev pub sense_bytes : Sense → List ℕ
sense_bytes e =
    0x70 ∷ 0 ∷ e.key ∷ 0 ∷ 0 ∷ 0 ∷ 0 ∷ 10 ∷ 0 ∷ 0 ∷ 0 ∷ 0 ∷ e.asc ∷ e.ascq ∷ 0 ∷ 0 ∷ 0 ∷ 0 ∷ []

-- The 13 bytes of a status as the host has to find them: "USBS", the tag and the residue with their lowest
-- byte first, and 0 for a command that went well or 1 for one that failed.
abbrev pub status_bytes : ℕ → ℕ → ℕ → List ℕ
status_bytes tag residue result =
    0x55
    ∷ 0x53
    ∷ 0x42
    ∷ 0x53
    ∷ tag % 256
    ∷ tag / 256 % 256
    ∷ tag / 65536 % 256
    ∷ tag / 16777216 % 256
    ∷ residue % 256
    ∷ residue / 256 % 256
    ∷ residue / 65536 % 256
    ∷ residue / 16777216 % 256
    ∷ result
    ∷ []

bytes_lem : (c : Csw) → bytes c ≡ status_bytes c.tag c.residue c.status
unfolding bytes
bytes_lem c = refl

pub parse-sense_packet :
    (tag : ℕ) → tag < 0x100000000 → parse (command_packet (sense_cbw tag)) ≡ some (sense_cbw tag)
unfolding parse has
parse-sense_packet tag h = same_cbw true (0x03 ∷ replicate 15 0) (omega arith) refl

zeroes : (n : ℕ) → resize [] n ≡ replicate n 0
zeroes n = take_all n (replicate n 0) (omega (arith, length-replicate n))

module _ {M : Type 0} (dev : BlockBackend M) where
  scsi-request_sense :
      (s : Storage M) (tag : ℕ)
      → ◌≡◌ {A = Outcome × Storage M}
          (scsi dev s (sense_cbw tag).cb [])
          (done (sense_bytes s.sense), record s { sense = no_sense })
  unfolding scsi
  scsi-request_sense s tag = refl

  finish_failed :
      (s t : Storage M) (cbw : Cbw) (out : List ℕ) (e : Sense)
      → ◌≡◌ {A = Outcome × Storage M} (scsi dev s cbw.cb out) (failed e, t)
      → ◌≡◌ {A = (List ℕ × Csw) × Storage M}
          (finish dev s cbw out)
          (([], record { tag = cbw.tag; residue = cbw.length; status = 1 }), record t { sense = e })
  unfolding finish
  finish_failed s t cbw out e h = ap report h
    where
      report : Outcome × Storage M → (List ℕ × Csw) × Storage M
      report r = elim (r.0) [
        | done payload ↦ ((payload, record { tag = cbw.tag; residue = 0; status = 0 }), r.1)
        | failed sense ↦ (
          ([], record { tag = cbw.tag; residue = cbw.length; status = 1 }),
          record r.1 { sense = sense },
        )
      ]

  -- The bytes, the status and the device that a command with data for the host leaves.
  unfoldable pub transfer_in : Storage M → List ℕ → ℕ → (List ℕ × Reply) × Storage M
  transfer_in s p len =
      let r = collect dev len len (output dev s ep_out p).1 in
      let last = input dev r.1 ep_in 13 in ((r.0, last.0), last.1)

  transfer_in_lem :
      (s : Storage M) (p : List ℕ) (cbw : Cbw)
      → s.phase ≡ command
      → parse p ≡ some cbw
      → cbw.data_in ≡ true
      → 0 < cbw.length
      → let f = finish dev s cbw [] in
        ◌≡◌ {A = (List ℕ × Reply) × Storage M} (transfer_in s p cbw.length) (
          (resize f.0.0 cbw.length, packet (status_bytes f.0.1.tag f.0.1.residue f.0.1.status)),
          record f.1 { phase = command },
        )
  unfolding transfer_in
  transfer_in_lem s p cbw c e d h =
      let f = finish dev s cbw [] in
      let r = read_exchange dev s p cbw c e d h in
      both r.0
        (r.1 ∙ ap (λ (b : List ℕ). (packet b, record f.1 { phase = command })) (bytes_lem f.0.1))
    where
      both :
          {xs ys : List ℕ} {a b : Reply × Storage M}
          → xs ≡ ys
          → a ≡ b
          → ◌≡◌ {A = (List ℕ × Reply) × Storage M} ((xs, a.0), a.1) ((ys, b.0), b.1)
      both p q = rw (p, q) refl

  -- A command that asks for data and fails: the host gets zeroes for its data and the 13 bytes of a
  -- status with the command's tag, the whole length as residue and 1 as its result. A REQUEST SENSE after it returns
  -- the reason and a status with its own tag, no residue and 0 as its result, and leaves the device
  -- as the command left it, without sense data and ready for a command.
  pub sense_lem :
      (s t : Storage M) (p : List ℕ) (cbw : Cbw) (e : Sense) (tag : ℕ)
      → s.phase ≡ command
      → parse p ≡ some cbw
      → cbw.data_in ≡ true
      → 0 < cbw.length
      → tag < 0x100000000
      → ◌≡◌ {A = Outcome × Storage M} (scsi dev s cbw.cb []) (failed e, t)
      → let r = transfer_in s p cbw.length in
        let q = transfer_in r.1 (command_packet (sense_cbw tag)) 18 in
        (r.0 ≡ (replicate cbw.length 0, packet (status_bytes cbw.tag cbw.length 1)))
        × (q.0 ≡ (sense_bytes e, packet (status_bytes tag 0 0)))
        × (q.1 ≡ record t { phase = command; sense = no_sense })
  sense_lem s t p cbw e tag c pe d h ht fails =
      let f = finish_failed s t cbw [] e fails in
      let u = record t { sense = e; phase = command } in
      let first = transfer_in_lem s p cbw c pe d h ∙ ap (answered cbw.length) f in
      let g =
        finish_done dev u (record u { sense = no_sense }) (sense_cbw tag) [] (sense_bytes e)
          (scsi-request_sense u tag) in
      let second =
        ap
          (λ (x : (List ℕ × Reply) × Storage M).
            transfer_in x.1 (command_packet (sense_cbw tag)) 18)
          first
        ∙ transfer_in_lem u (command_packet (sense_cbw tag)) (sense_cbw tag) refl
            (parse-sense_packet tag ht) refl (omega arith)
        ∙ ap (answered 18) g in
      (
        ap (λ (x : (List ℕ × Reply) × Storage M). x.0) first
            ∙ ap (λ (z : List ℕ). (z, packet (status_bytes cbw.tag cbw.length 1)))
                (zeroes cbw.length),
        ap (λ (x : (List ℕ × Reply) × Storage M). x.0) second,
        ap (λ (x : (List ℕ × Reply) × Storage M). x.1) second,
      )
    where
      answered : ℕ → (List ℕ × Csw) × Storage M → (List ℕ × Reply) × Storage M
      answered n f = (
        (resize f.0.0 n, packet (status_bytes f.0.1.tag f.0.1.residue f.0.1.status)),
        record f.1 { phase = command },
      )

  -- The medium with other reads and writes.
  abbrev pub other :
      (M → ℕ → ℕ → Option (List ℕ) × M) → (M → ℕ → List ℕ → Bool × M) → BlockBackend M
  other rd wr = record dev { read_blocks = rd; write_blocks = wr }

  read_10-within :
      (rd : M → ℕ → ℕ → Option (List ℕ) × M) (wr : M → ℕ → List ℕ → Bool × M)
      → ((m : M) (lba len : ℕ)
          → lba * 512 + len ≤ dev.blocks m * 512
          → dev.read_blocks m lba len ≡ rd m lba len)
      → (s : Storage M) (lba n : ℕ) → read_10 dev s lba n ≡ read_10 (other rd wr) s lba n
  unfolding read_10
  read_10-within rd wr reads s lba n = elim (Bool-cases (ltb (dev.blocks s.backend) (lba + n))) [
    | inl past ↦ rw past refl
    | inr within ↦ rw (within, reads s.backend lba (n * 512) (ground arith)) refl
  ]

  write_10-within :
      (rd : M → ℕ → ℕ → Option (List ℕ) × M) (wr : M → ℕ → List ℕ → Bool × M)
      → ((m : M) (lba : ℕ) (d : List ℕ)
          → dev.read_only m ≡ false
          → lba * 512 + length d ≤ dev.blocks m * 512
          → dev.write_blocks m lba d ≡ wr m lba d)
      → (s : Storage M) (lba n : ℕ) (out : List ℕ)
      → write_10 dev s lba n out ≡ write_10 (other rd wr) s lba n out
  unfolding write_10
  write_10-within rd wr writes s lba n out = elim (Bool-cases (dev.read_only s.backend)) [
    | inl protected ↦ rw protected refl
    | inr writable ↦ elim (Bool-cases (ltb (dev.blocks s.backend) (lba + n))) [
      | inl past ↦ rw (writable, past) refl
      | inr within ↦
          let len = min (n * 512) (length out) / 512 * 512 in
          let short = length-take len out in
          rw
            (writable, within, writes s.backend lba (take len out) writable (ground (arith, short)))
            refl
    ]
  ]

  -- Two media that agree on what lies within their blocks, and on writes only where they can be written, answer
  -- every command alike: no command reads or writes past the last block, or writes to a read-only one.
  pub scsi-within :
      (rd : M → ℕ → ℕ → Option (List ℕ) × M) (wr : M → ℕ → List ℕ → Bool × M)
      → ((m : M) (lba len : ℕ)
          → lba * 512 + len ≤ dev.blocks m * 512
          → dev.read_blocks m lba len ≡ rd m lba len)
      → ((m : M) (lba : ℕ) (d : List ℕ)
          → dev.read_only m ≡ false
          → lba * 512 + length d ≤ dev.blocks m * 512
          → dev.write_blocks m lba d ≡ wr m lba d)
      → (s : Storage M) (cb out : List ℕ)
      → ◌≡◌ {A = Outcome × Storage M} (scsi dev s cb out) (scsi (other rd wr) s cb out)
  unfolding scsi
  scsi-within rd wr reads writes s cb out =
      let lba =
        ((get_or cb 2 0 * 256 + get_or cb 3 0) * 256 + get_or cb 4 0) * 256 + get_or cb 5 0 in
      let blocks = get_or cb 7 0 * 256 + get_or cb 8 0 in
      rw (read_10-within rd wr reads s lba blocks, write_10-within rd wr writes s lba blocks out)
        refl
