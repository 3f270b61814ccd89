-- ===== src/Usb/Blocks.antt =====
-- READ(10) and WRITE(10) on the wire.
use ue2_c64u_emulator.Base.{
  ℕ, ◌+◌, ◌*◌, ◌/◌, ◌<◌, ◌≤◌, ◌≡◌, refl, ap, ◌∙◌, arith, min, true, false, some, List, [], ◌∷◌,
  ◌++◌, length, take, take_all, replicate,
}
use ue2_c64u_emulator.Usb.Function.{Reply}
use ue2_c64u_emulator.Usb.Storage.{
  Storage, BlockBackend, command, data_out, Cbw, Csw, output, input, resize, ep_in, ep_out, scsi,
  read_10, write_10, Outcome, done,
}
use ue2_c64u_emulator.Usb.Exchange.{collect}
use ue2_c64u_emulator.Usb.Transfers.{
  command_block, command_packet, parse-command_packet, read_exchange, write_exchange, deliver,
  joined, finish_done,
}

take-append : (xs ys : List ℕ) → take (length xs) (xs ++ ys) ≡ xs
take-append [] ys = refl
take-append (x ∷ xs) ys = ap (λ (t : List ℕ). x ∷ t) (take-append xs ys)

module _ {M : Type 0} (dev : BlockBackend M) where
  scsi-write :
      (s : Storage M) (lba n : ℕ) (out : List ℕ)
      → lba < 0x100000000
      → n < 65536
      → scsi dev s (command_block 0x2a lba n) out ≡ write_10 dev s lba n out
  unfolding scsi
  scsi-write s lba n out h k = same (omega arith) (omega arith)
    where
      same : {a b : ℕ} → a ≡ lba → b ≡ n → write_10 dev s a b out ≡ write_10 dev s lba n out
      same p q = rw (p, q) refl

  scsi-read :
      (s : Storage M) (lba n : ℕ) (out : List ℕ)
      → lba < 0x100000000
      → n < 65536
      → scsi dev s (command_block 0x28 lba n) out ≡ read_10 dev s lba n
  unfolding scsi
  scsi-read s lba n out h k = same (omega arith) (omega arith)
    where
      same : {a b : ℕ} → a ≡ lba → b ≡ n → read_10 dev s a b ≡ read_10 dev s lba n
      same p q = rw (p, q) refl

  write_10_lem :
      (s : Storage M) (lba n : ℕ) (out : List ℕ)
      → dev.read_only s.backend ≡ false
      → lba + n ≤ dev.blocks s.backend
      → length out ≡ n * 512
      → (dev.write_blocks s.backend lba out).0 ≡ true
      → ◌≡◌ {A = Outcome × Storage M}
          (write_10 dev s lba n out)
          (done [], record s { backend = (dev.write_blocks s.backend lba out).1 })
  unfolding write_10
  write_10_lem s lba n out w r l ok =
      let all : take (min (n * 512) (length out) / 512 * 512) out ≡ out =
        take_all _ out (omega arith) in
      ground (arith, ap (dev.write_blocks s.backend lba) all)

  read_10_lem :
      (s : Storage M) (lba n : ℕ) (payload : List ℕ)
      → lba + n ≤ dev.blocks s.backend
      → (dev.read_blocks s.backend lba (n * 512)).0 ≡ some payload
      → ◌≡◌ {A = Outcome × Storage M}
          (read_10 dev s lba n)
          (done payload, record s { backend = (dev.read_blocks s.backend lba (n * 512)).1 })
  unfolding read_10
  read_10_lem s lba n payload r e = ground arith

  abbrev write_cbw : ℕ → ℕ → ℕ → Cbw
  write_cbw tag lba n = record {
    tag = tag;
    length = n * 512;
    data_in = false;
    cb = command_block 0x2a lba n;
  }

  abbrev read_cbw : ℕ → ℕ → ℕ → Cbw
  read_cbw tag lba n = record {
    tag = tag;
    length = n * 512;
    data_in = true;
    cb = command_block 0x28 lba n;
  }

  -- The device when the host has sent a WRITE(10), its data in packets, and read the status.
  unfoldable pub after_write : Storage M → ℕ → ℕ → ℕ → List (List ℕ) → List ℕ → Storage M
  after_write s tag lba n ps last =
      let t = deliver dev (output dev s ep_out (command_packet (write_cbw tag lba n))).1 ps in
      (input dev (output dev t ep_out last).1 ep_in 13).1

  -- What the host gets for a READ(10).
  unfoldable pub read_back : Storage M → ℕ → ℕ → ℕ → List ℕ
  read_back s tag lba n =
      (collect dev (n * 512) (n * 512)
        (output dev s ep_out (command_packet (read_cbw tag lba n))).1).0

  writes :
      (s : Storage M) (tag lba n : ℕ) (ps : List (List ℕ)) (last : List ℕ)
      → s.phase ≡ command
      → tag < 0x100000000
      → lba < 0x100000000
      → n < 65536
      → length (joined ps) < n * 512
      → length (joined ps ++ last) ≡ n * 512
      → dev.read_only s.backend ≡ false
      → lba + n ≤ dev.blocks s.backend
      → (dev.write_blocks s.backend lba (joined ps ++ last)).0 ≡ true
      → after_write s tag lba n ps last ≡ record s {
        backend = (dev.write_blocks s.backend lba (joined ps ++ last)).1;
        phase = command;
      }
  unfolding after_write
  writes s tag lba n ps last c ht hl hn short all w r ok =
      let cbw = write_cbw tag lba n in
      let out = joined ps ++ last in
      let t = record s { phase = data_out cbw (joined ps) } in
      let f =
        finish_done dev t (record t { backend = (dev.write_blocks s.backend lba out).1 }) cbw out []
          (scsi-write t lba n out hl hn ∙ write_10_lem t lba n out w r all ok) in
      ap (λ (u : Reply × Storage M). u.1)
        (write_exchange dev s (command_packet cbw) cbw ps last c
          (parse-command_packet tag (n * 512) 0x2a lba n false ht (omega arith)) refl short
          (omega (arith, all)))
      ∙ ap (λ (u : (List ℕ × Csw) × Storage M). record u.1 { phase = command }) f

  reads :
      (s : Storage M) (tag lba n : ℕ) (payload : List ℕ)
      → s.phase ≡ command
      → tag < 0x100000000
      → lba < 0x100000000
      → n < 65536
      → 0 < n
      → length payload ≡ n * 512
      → lba + n ≤ dev.blocks s.backend
      → (dev.read_blocks s.backend lba (n * 512)).0 ≡ some payload
      → read_back s tag lba n ≡ payload
  unfolding read_back
  reads s tag lba n payload c ht hl hn pos len r e =
      let cbw = read_cbw tag lba n in
      let f =
        finish_done dev s (record s { backend = (dev.read_blocks s.backend lba (n * 512)).1 }) cbw
          [] payload (scsi-read s lba n [] hl hn ∙ read_10_lem s lba n payload r e) in
      (read_exchange dev s (command_packet cbw) cbw c
        (parse-command_packet tag (n * 512) 0x28 lba n true ht (omega arith)) refl (omega arith)).0
      ∙ ap (λ (u : (List ℕ × Csw) × Storage M). resize u.0.0 (n * 512)) f
      ∙ rw⁻¹ len (take-append payload (replicate (length payload) 0))

  -- When the medium gives back what a write that went well has put there and keeps its size: blocks
  -- written with WRITE(10), in packets of any size, are what a READ(10) of them returns, for a
  -- medium that is not read only, blocks on it, and a write that goes well.
  pub read_back-after_write :
      ((m : M) (lba : ℕ) (d : List ℕ)
        → (dev.write_blocks m lba d).0 ≡ true
        → (dev.read_blocks (dev.write_blocks m lba d).1 lba (length d)).0 ≡ some d)
      → ((m : M) (lba : ℕ) (d : List ℕ) → dev.blocks (dev.write_blocks m lba d).1 ≡ dev.blocks m)
      → (s : Storage M) (tag lba n : ℕ) (ps : List (List ℕ)) (last : List ℕ) → s.phase ≡ command
      → tag < 0x100000000
      → lba < 0x100000000
      → n < 65536
      → length (joined ps) < n * 512
      → length (joined ps ++ last) ≡ n * 512
      → dev.read_only s.backend ≡ false
      → lba + n ≤ dev.blocks s.backend
      → (dev.write_blocks s.backend lba (joined ps ++ last)).0 ≡ true
      → read_back (after_write s tag lba n ps last) tag lba n ≡ joined ps ++ last
  read_back-after_write law keeps s tag lba n ps last c ht hl hn short all w r ok =
      let out = joined ps ++ last in
      let t = record s { backend = (dev.write_blocks s.backend lba out).1; phase = command } in
      ap (λ (u : Storage M). read_back u tag lba n)
        (writes s tag lba n ps last c ht hl hn short all w r ok)
      ∙ reads t tag lba n out refl ht hl hn (omega arith) all
          (omega (arith, keeps s.backend lba out)) (rw all at (law s.backend lba out ok))
