-- ===== src/Usb/Transfers.antt =====
-- Reads and writes of blocks: what is written with WRITE(10) is what READ(10) then returns.
use ue2_c64u_emulator.Base.{
  ℕ, ◌+◌, ◌/◌, ◌<◌, ◌≤◌, ◌≡◌, refl, sym, ap, ◌∙◌, arith, Bool, true, false, if◌then◌else◌, has, u8,
  Option, some, List, [], ◌∷◌, ◌++◌, length, length-append,
}
use ue2_c64u_emulator.Usb.Function.{Reply, ack, packet}
use ue2_c64u_emulator.Usb.Storage.{
  Storage, BlockBackend, Phase, command, data_in, data_out, status, Cbw, Csw, parse, bytes, finish,
  start, input, output, resize, ep_in, ep_out, scsi, le_bytes, be_bytes, Outcome, done, failed,
}
use ue2_c64u_emulator.Usb.Exchange.{append_nil, collect, collect_lem, length-resize}

-- The 16 bytes of a READ(10) or WRITE(10).
abbrev pub command_block : ℕ → ℕ → ℕ → List ℕ
command_block op lba n =
    op ∷ 0 ∷ be_bytes lba ++ (0 ∷ u8 (n / 256) ∷ u8 n ∷ 0 ∷ 0 ∷ 0 ∷ 0 ∷ 0 ∷ 0 ∷ 0 ∷ [])

-- The 31 bytes in which the command goes out.
abbrev pub command_packet : Cbw → List ℕ
command_packet cbw =
    0x55 ∷ 0x53 ∷ 0x42 ∷ 0x43 ∷ le_bytes cbw.tag
    ++ (le_bytes cbw.length ++ ((if cbw.data_in then 0x80 else 0) ∷ 0 ∷ 10 ∷ cbw.cb))

pub same_cbw :
    {t t' l l' : ℕ} (dir : Bool) (cb : List ℕ)
    → t ≡ t'
    → l ≡ l'
    → ◌≡◌ {A = Option Cbw}
        (some record { tag = t; length = l; data_in = dir; cb = cb })
        (some record { tag = t'; length = l'; data_in = dir; cb = cb })
same_cbw dir cb p q = rw (p, q) refl

pub parse-command_packet :
    (tag len op lba n : ℕ) (dir : Bool)
    → tag < 0x100000000
    → len < 0x100000000
    → let cbw : Cbw = record {
      tag = tag;
      length = len;
      data_in = dir;
      cb = command_block op lba n;
    } in
      parse (command_packet cbw) ≡ some cbw
unfolding parse has
parse-command_packet tag len op lba n true h k =
    same_cbw true (command_block op lba n) (omega arith) (omega arith)
parse-command_packet tag len op lba n false h k =
    same_cbw false (command_block op lba n) (omega arith) (omega arith)

abbrev pub joined : List (List ℕ) → List ℕ
joined [] = []
joined (p ∷ ps) = p ++ joined ps

module _ {M : Type 0} (dev : BlockBackend M) where
  output-command :
      (s : Storage M) (p : List ℕ) (cbw : Cbw)
      → s.phase ≡ command
      → parse p ≡ some cbw
      → ◌≡◌ {A = Reply × Storage M} (output dev s ep_out p) (ack, start dev s cbw)
  unfolding output
  output-command s p cbw c e = ground arith

  start-in :
      (s : Storage M) (cbw : Cbw)
      → cbw.data_in ≡ true
      → 0 < cbw.length
      → start dev s cbw ≡ (
          let f = finish dev s cbw [] in
          record f.1 { phase = data_in (resize f.0.0 cbw.length) 0 f.0.1 })
  unfolding start
  start-in s cbw d h = ground arith

  start-out :
      (s : Storage M) (cbw : Cbw)
      → cbw.data_in ≡ false
      → 0 < cbw.length
      → start dev s cbw ≡ record s { phase = data_out cbw [] }
  unfolding start
  start-out s cbw d h = ground arith

  input-status :
      (s : Storage M) (csw : Csw)
      → s.phase ≡ status csw
      → ◌≡◌ {A = Reply × Storage M}
          (input dev s ep_in 13)
          (packet (bytes csw), record s { phase = command })
  unfolding input bytes
  input-status s csw p = ground arith

  -- A command with data for the host: the host gets the data in packets, exactly as much as it asked
  -- for, then the status, and the device waits for a command.
  pub read_exchange :
      (s : Storage M) (p : List ℕ) (cbw : Cbw)
      → s.phase ≡ command
      → parse p ≡ some cbw
      → cbw.data_in ≡ true
      → 0 < cbw.length
      → let f = finish dev s cbw [] in
        let r = collect dev cbw.length cbw.length (output dev s ep_out p).1 in
        (r.0 ≡ resize f.0.0 cbw.length)
        × ◌≡◌ {A = Reply × Storage M}
            (input dev r.1 ep_in 13)
            (packet (bytes f.0.1), record f.1 { phase = command })
  read_exchange s p cbw c e d h =
      let f = finish dev s cbw [] in
      let t = record f.1 { phase = data_in (resize f.0.0 cbw.length) 0 f.0.1 } in
      let got =
        ap (λ (u : Reply × Storage M). collect dev cbw.length cbw.length u.1)
          (output-command s p cbw c e)
        ∙ ap (collect dev cbw.length cbw.length) (start-in s cbw d h)
        ∙ collect_lem dev cbw.length cbw.length t (resize f.0.0 cbw.length) 0 f.0.1 refl
            (omega (arith, length-resize f.0.0 cbw.length)) h (omega arith) in
      (
        ap (λ (u : List ℕ × Storage M). u.0) got,
        ap (λ (u : List ℕ × Storage M). input dev u.1 ep_in 13) got
            ∙ input-status (record t { phase = status f.0.1 }) f.0.1 refl,
      )

  -- Packets from the host, one after the other.
  unfoldable pub deliver : Storage M → List (List ℕ) → Storage M
  deliver s [] = s
  deliver s (p ∷ ps) = deliver (output dev s ep_out p).1 ps

  output-more :
      (s : Storage M) (cbw : Cbw) (received p : List ℕ)
      → s.phase ≡ data_out cbw received
      → length (received ++ p) < cbw.length
      → (output dev s ep_out p).1 ≡ record s { phase = data_out cbw (received ++ p) }
  unfolding output
  output-more s cbw received p e h = ground arith

  output-last :
      (s : Storage M) (cbw : Cbw) (received p : List ℕ)
      → s.phase ≡ data_out cbw received
      → cbw.length ≤ length (received ++ p)
      → (output dev s ep_out p).1
        ≡ (let f = finish dev s cbw (received ++ p) in record f.1 { phase = status f.0.1 })
  unfolding output
  output-last s cbw received p e h = ground arith

  append_assoc : (xs ys zs : List ℕ) → (xs ++ ys) ++ zs ≡ xs ++ (ys ++ zs)
  append_assoc [] ys zs = refl
  append_assoc (x ∷ xs) ys zs = ap (λ (t : List ℕ). x ∷ t) (append_assoc xs ys zs)

  deliver_lem :
      (ps : List (List ℕ)) (s : Storage M) (cbw : Cbw) (received : List ℕ)
      → s.phase ≡ data_out cbw received
      → length received + length (joined ps) < cbw.length
      → deliver s ps ≡ record s { phase = data_out cbw (received ++ joined ps) }
  unfolding deliver
  deliver_lem [] s cbw received e h =
      ap (λ (t : Phase). record s { phase = t }) (e ∙ ap (data_out cbw) (sym (append_nil received)))
  deliver_lem (p ∷ ps) s cbw received e h =
      ap (λ (t : Storage M). deliver t ps)
        (output-more s cbw received p e
          (omega (arith, length-append received p, length-append p (joined ps))))
      ∙ deliver_lem ps (record s { phase = data_out cbw (received ++ p) }) cbw (received ++ p) refl
          (omega (arith, length-append received p, length-append p (joined ps)))
      ∙ ap (λ (t : List ℕ). record s { phase = data_out cbw t })
          (append_assoc received p (joined ps))

  -- A command with data from the host, in packets of any size of which only the last completes the
  -- length that the command gave: the command runs once, with all the data, the host gets
  -- its status, and the device waits for a command.
  pub write_exchange :
      (s : Storage M) (p : List ℕ) (cbw : Cbw) (ps : List (List ℕ)) (last : List ℕ)
      → s.phase ≡ command
      → parse p ≡ some cbw
      → cbw.data_in ≡ false
      → length (joined ps) < cbw.length
      → cbw.length ≤ length (joined ps ++ last)
      → let all = joined ps ++ last in
        let f = finish dev (record s { phase = data_out cbw (joined ps) }) cbw all in
        ◌≡◌ {A = Reply × Storage M}
          (input dev (output dev (deliver (output dev s ep_out p).1 ps) ep_out last).1 ep_in 13)
          (packet (bytes f.0.1), record f.1 { phase = command })
  write_exchange s p cbw ps last c e d h k =
      let t = record s { phase = data_out cbw (joined ps) } in
      let f = finish dev t cbw (joined ps ++ last) in
      let begun =
        ap (λ (u : Reply × Storage M). u.1) (output-command s p cbw c e)
        ∙ start-out s cbw d (omega arith) in
      let received =
        ap (λ (u : Storage M). deliver u ps) begun
        ∙ deliver_lem ps (record s { phase = data_out cbw [] }) cbw [] refl (omega arith) in
      ap (λ (u : Storage M). input dev (output dev u ep_out last).1 ep_in 13) received
      ∙ ap (λ (u : Storage M). input dev u ep_in 13) (output-last t cbw (joined ps) last refl k)
      ∙ input-status (record f.1 { phase = status f.0.1 }) f.0.1 refl

  pub finish_done :
      (s t : Storage M) (cbw : Cbw) (out payload : List ℕ)
      → ◌≡◌ {A = Outcome × Storage M} (scsi dev s cbw.cb out) (done payload, t)
      → ◌≡◌ {A = (List ℕ × Csw) × Storage M}
          (finish dev s cbw out)
          ((payload, record { tag = cbw.tag; residue = 0; status = 0 }), t)
  unfolding finish
  finish_done s t cbw out payload e = ap report e
    where
      report : Outcome × Storage M → (List ℕ × Csw) × Storage M
      report r = elim (r.0) [
        | done payload ↦ ((payload, record { tag = cbw.tag; residue = 0; status = 0 }), r.1)
        | failed sense ↦ (
          ([], record { tag = cbw.tag; residue = cbw.length; status = 1 }),
          record r.1 { sense = sense },
        )
      ]
