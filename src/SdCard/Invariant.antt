-- ===== src/SdCard/Invariant.antt =====
-- Every byte in and out keeps the card's indices inside its arrays, and its bytes bytes.
use ue2_c64u_emulator.Base.{
  ℕ, ◌+◌, ◌/◌, ◌<◌, ◌≡◌, refl, arith, Bool, true, false, bit_and, if◌then◌else◌, if_elim, if_cases,
  u8, Option, some, none, List, [], ◌∷◌, All, All-append, All-get_or, Memory, store, rest, not,
  ◌&&◌, ◌||◌, ◌==◌, leb, ltb, length,
}
use ue2_c64u_emulator.Base.Bits.{bit_and-le}
use ue2_c64u_emulator.SdCard.Crc.{IsByte}
use ue2_c64u_emulator.SdCard.Card.{
  Phase, command, in_frame, write_token, write_data, Card, ImageFile, data_block, cid, answer,
  queue_sector, commit_write, access_command, run_command, execute, take_frame, take_token,
  take_data, start_command, receive, refill, xfer, is_command, r1_param, r1_idle,
}
use ue2_c64u_emulator.SdCard.Bytes.{data_block-IsByte, with_crc7-IsByte, csd-IsByte}
use ue2_c64u_emulator.SdCard.Frames.{receive-frame}
use ue2_c64u_emulator.SdCard.Fill.{receive-data}

-- The index of the byte that comes next lies in the array that takes it.
abbrev pub IsInside : Phase → Type 0
IsInside command = Unit {0}
IsInside (in_frame n) = n < 6
IsInside (write_token multi) = Unit {0}
IsInside (write_data multi n) = n < 514

module _ {F : Type 0} (dev : ImageFile F) where
  -- The image gives bytes.
  abbrev pub GivesBytes : Type 0
  GivesBytes = (f : F) (n : ℕ) → All IsByte (elim (dev.read f n) [ none ↦ [] | some bytes ↦ bytes ])

  -- The place in the stream is inside the arrays, and what the card holds are bytes.
  abbrev Holds : Card F → Type 0
  Holds c =
      IsInside c.phase
      × All IsByte c.out
      × ((i : ℕ) → IsByte (c.frame i))
      × ((i : ℕ) → IsByte (c.block i))

  pub record IsWellFormed (c : Card F) : Type 0 where
    pub holds : Holds c

  store-IsByte :
      (m : Memory) (a v : ℕ)
      → ((i : ℕ) → IsByte (m i))
      → IsByte v
      → (i : ℕ) → IsByte (store m a v i)
  unfolding store
  store-IsByte m a v h k i = if_elim IsByte (i == a) v (m i) k (h i)

  answer-IsWellFormed :
      (c : Card F) (bytes : List ℕ) → Holds c → All IsByte bytes → IsWellFormed (answer c bytes)
  unfolding answer
  answer-IsWellFormed c bytes v h = record {
    holds = (v.0, All-append IsByte c.out bytes v.1 h, v.2, v.3);
  }

  queue_sector-IsWellFormed :
      (c : Card F) → GivesBytes → Holds c → IsWellFormed (queue_sector dev c)
  unfolding queue_sector
  queue_sector-IsWellFormed c g v =
      if_elim IsWellFormed (leb c.sectors c.lba) _ _
        (answer-IsWellFormed (record c { streaming = false }) (0x08 ∷ []) v (omega arith, tt))
        (block (dev.read c.file c.lba) (g c.file c.lba))
    where
      block :
          (r : Option (List ℕ))
          → All IsByte (elim r [ none ↦ [] | some bytes ↦ bytes ])
          → IsWellFormed (elim r [
            | some bytes ↦ answer (record c { lba = c.lba + 1 }) (data_block bytes)
            | none ↦ answer (record c { streaming = false }) (0x01 ∷ [])
          ])
      block (some bytes) h =
          answer-IsWellFormed (record c { lba = c.lba + 1 }) (data_block bytes) v
            (data_block-IsByte bytes h)
      block none h =
          answer-IsWellFormed (record c { streaming = false }) (0x01 ∷ []) v (omega arith, tt)

  access_command-IsWellFormed :
      (c : Card F) (cmd arg : ℕ)
      → GivesBytes
      → Holds c
      → IsWellFormed (access_command dev c cmd arg)
  unfolding access_command
  access_command-IsWellFormed c cmd arg g v =
      let h = answer-IsWellFormed (record c { lba = arg }) (0x00 ∷ []) v (omega arith, tt) in
      if_elim IsWellFormed (cmd == 17) _ _ (queue_sector-IsWellFormed _ g h.holds) (
        if_elim IsWellFormed (cmd == 18) _ _ record { holds = h.holds }
          record { holds = (tt, h.holds.1, h.holds.2, h.holds.3) })

  run_command-IsWellFormed :
      (c : Card F) (app : Bool) (cmd arg : ℕ)
      → GivesBytes
      → Holds c
      → IsWellFormed (run_command dev c app cmd arg)
  unfolding run_command
  run_command-IsWellFormed c app cmd arg g v =
      let each = if_elim IsWellFormed in
      let says = λ (d : Card F) (bytes : List ℕ). answer-IsWellFormed d bytes in
      let idle : IsByte (if c.idle then r1_idle else 0) = ground arith in
      let power : IsByte (if c.idle then 0x40 else 0xc0) = ground arith in
      let length_bytes : IsByte (if arg == 512 then 0x00 else r1_param) = ground arith in
      each (cmd == 0) _ _ (says (record c { idle = true }) _ v (omega arith, tt)) (
        each (not app && (cmd == 8)) _ _
          (says c _ v (
            idle,
            (
              omega arith,
              (omega arith, (omega (arith, bit_and-le (u8 (arg / 256)) 0x0f), (omega arith, tt))),
            ),
          ))
          (each (cmd == 55) _ _ (says (record c { app = true }) _ v (idle, tt)) (
            each (app && (cmd == 41)) _ _ (says (record c { idle = false }) _ v (omega arith, tt)) (
              each (not app && (cmd == 58)) _ _
                (says c _ v (idle, (power, (omega arith, (omega arith, (omega arith, tt))))))
                (each (not app && (cmd == 59)) _ _ (says c _ v (idle, tt)) (
                  each c.idle _ _ (says c _ v (omega arith, tt)) (
                    each (not app && (cmd == 9)) _ _
                      (says c _ v (omega arith, data_block-IsByte _ (csd-IsByte c.sectors)))
                      (each (not app && (cmd == 10)) _ _
                        (says c _ v
                          (omega arith, data_block-IsByte _ (with_crc7-IsByte cid (ground arith))))
                        (each (not app && (cmd == 12)) _ _
                          (says c _ v (omega arith, (omega arith, tt)))
                          (each (not app && (cmd == 13)) _ _
                            (says c _ v (omega arith, (omega arith, tt)))
                            (each (not app && (cmd == 16)) _ _ (says c _ v (length_bytes, tt)) (
                              each (not app && (cmd == 17 || cmd == 18 || cmd == 24 || cmd == 25)) _
                                _
                                (each (leb c.sectors arg) _ _ (says c _ v (omega arith, tt))
                                  (access_command-IsWellFormed c cmd arg g v))
                                (each (app && (cmd == 23)) _ _ (says c _ v (omega arith, tt))
                                  (says c _ v (omega arith, tt)))))))))))))))

  execute-IsWellFormed : (c : Card F) → GivesBytes → Holds c → IsWellFormed (execute dev c)
  unfolding execute
  execute-IsWellFormed c g v =
      run_command-IsWellFormed (record c { app = false; streaming = false }) c.app _ _ g v

  take_frame-IsWellFormed :
      (c : Card F) (n mosi : ℕ)
      → GivesBytes
      → IsByte mosi
      → n < 6
      → Holds c
      → IsWellFormed (take_frame dev c n mosi)
  unfolding take_frame
  take_frame-IsWellFormed c n mosi g b h v =
      let f = store-IsByte c.frame n mosi v.2 b in
      if_cases IsWellFormed (n == 5) _ _
        (λ e.
          execute-IsWellFormed (record c { frame = store c.frame n mosi; phase = command }) g
            (tt, v.1, f, v.3))
        (λ e. record { holds = (ground arith, v.1, f, v.3) })

  take_token-IsWellFormed :
      (c : Card F) (multi : Bool) (mosi : ℕ) → Holds c → IsWellFormed (take_token dev c multi mosi)
  unfolding take_token
  take_token-IsWellFormed c multi mosi v =
      let each = if_elim IsWellFormed in
      let start : 0 < 514 = omega arith in
      each (mosi == 0xfe && not multi) _ _ record { holds = (start, v.1, v.2, v.3) }
        (each (mosi == 0xfc && multi) _ _ record { holds = (start, v.1, v.2, v.3) }
          (each (mosi == 0xfd && multi) _ _ record { holds = (tt, v.1, v.2, v.3) }
            record { holds = v }))

  -- What the card holds, its place in the stream apart.
  record HoldsBytes (c : Card F) : Type 0 where
    bytes : All IsByte c.out
    frame_bytes : (i : ℕ) → IsByte (c.frame i)
    block_bytes : (i : ℕ) → IsByte (c.block i)

  commit_write-HoldsBytes : (c : Card F) → HoldsBytes c → HoldsBytes (commit_write dev c)
  unfolding commit_write
  commit_write-HoldsBytes c v =
      let said : (ok : Bool) → IsByte (if ok then 0x05 else 0x0d) = λ ok. ground arith in
      if_elim HoldsBytes (ltb c.lba c.sectors) _ _
        record {
          bytes = All-append IsByte c.out _ v.bytes (said _, tt);
          frame_bytes = v.frame_bytes;
          block_bytes = v.block_bytes;
        }
        record {
          bytes = All-append IsByte c.out _ v.bytes (omega arith, tt);
          frame_bytes = v.frame_bytes;
          block_bytes = v.block_bytes;
        }

  after_block : (multi : Bool) → IsInside (if multi then write_token multi else command)
  after_block true = tt
  after_block false = tt

  take_data-IsWellFormed :
      (c : Card F) (multi : Bool) (n mosi : ℕ)
      → IsByte mosi
      → n < 514
      → Holds c
      → IsWellFormed (take_data dev c multi n mosi)
  unfolding take_data
  take_data-IsWellFormed c multi n mosi b h v =
      let s = store-IsByte c.block n mosi v.3 b in
      let w =
        commit_write-HoldsBytes (record c { block = store c.block n mosi })
          record { bytes = v.1; frame_bytes = v.2; block_bytes = s } in
      if_cases IsWellFormed (ltb (n + 1) 514) _ _
        (λ e. record { holds = (ground arith, v.1, v.2, s) })
        (λ e. record { holds = (after_block multi, w.bytes, w.frame_bytes, w.block_bytes) })

  start_command-IsWellFormed :
      (c : Card F) (mosi : ℕ) → IsByte mosi → Holds c → IsWellFormed (start_command dev c mosi)
  unfolding start_command
  start_command-IsWellFormed c mosi b v = record {
    holds = (omega arith, tt, store-IsByte c.frame 0 mosi v.2 b, v.3);
  }

  receive-command :
      (c : Card F) (b : ℕ)
      → c.phase ≡ command
      → receive dev c b ≡ (if bit_and b 0xc0 == 0x40 then start_command dev c b else c)
  unfolding receive
  receive-command c b p = ground arith

  receive-write_token :
      (c : Card F) (multi : Bool) (b : ℕ)
      → c.phase ≡ write_token multi
      → receive dev c b
        ≡ (if bit_and b 0xc0 == 0x40 then start_command dev c b else take_token dev c multi b)
  unfolding receive
  receive-write_token c multi b p = ground arith

  receive_at :
      (c : Card F) (mosi : ℕ) (p : Phase)
      → c.phase ≡ p
      → IsInside p
      → GivesBytes
      → IsByte mosi
      → Holds c
      → IsWellFormed (receive dev c mosi)
  receive_at c mosi command e h g b v = rw (receive-command c mosi e) (
      if_elim IsWellFormed (bit_and mosi 0xc0 == 0x40) _ _ (start_command-IsWellFormed c mosi b v)
        record { holds = v })
  receive_at c mosi (in_frame n) e h g b v =
      rw (receive-frame dev c n mosi e) (take_frame-IsWellFormed c n mosi g b h v)
  receive_at c mosi (write_token multi) e h g b v = rw (receive-write_token c multi mosi e) (
      if_elim IsWellFormed (bit_and mosi 0xc0 == 0x40) _ _ (start_command-IsWellFormed c mosi b v)
        (take_token-IsWellFormed c multi mosi v))
  receive_at c mosi (write_data multi n) e h g b v =
      rw (receive-data dev c multi n mosi e) (take_data-IsWellFormed c multi n mosi b h v)

  refill-IsWellFormed : (c : Card F) → GivesBytes → Holds c → IsWellFormed (refill dev c)
  unfolding refill
  refill-IsWellFormed c g v =
      if_elim IsWellFormed ((length c.out == 0) && c.streaming && is_command c.phase) _ _
        (queue_sector-IsWellFormed c g v) record { holds = v }

  rest-IsByte : (xs : List ℕ) → All IsByte xs → All IsByte (rest xs)
  rest-IsByte [] v = tt
  rest-IsByte (x ∷ xs) v = v.1

  -- A byte sent to the card keeps it well formed: the frame takes at most its 6 bytes and
  -- the block its 514, for an image that gives bytes. The answer is a byte.
  pub xfer-IsWellFormed :
      (c : Card F) (mosi : ℕ)
      → GivesBytes
      → IsByte mosi
      → IsWellFormed c
      → IsByte (xfer dev c mosi).0 × IsWellFormed (xfer dev c mosi).1
  unfolding xfer
  xfer-IsWellFormed c mosi g b v =
      let d = refill dev c in
      let w = (refill-IsWellFormed c g v.holds).holds in
      (
        All-get_or IsByte d.out 0 0xff w.1 (omega arith),
        receive_at (record d { out = rest d.out }) mosi d.phase refl w.0 g b
            (w.0, rest-IsByte d.out w.1, w.2, w.3),
      )
