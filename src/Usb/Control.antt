-- ===== src/Usb/Control.antt =====
-- Control transfers: what the host reads, when an address changes, and the bounds of the stages.
use ue2_c64u_emulator.Base.{
  ℕ, zero, suc, ◌+◌, ◌-◌, ◌<◌, ◌≤◌, ◌≡◌, refl, sym, ap, ◌∙◌, arith, min, inl, inr, true, ltb,
  if◌then◌else◌, has, Bool-cases, some, List, [], ◌++◌, length, take, drop, take-append-drop,
  take_all, length-take, length-drop,
}
use ue2_c64u_emulator.Usb.Function.{Reply, ack, packet, parse, Function}
use ue2_c64u_emulator.Usb.Device.{Device, idle, data_in, setup_token, request, input, output}
use ue2_c64u_emulator.Usb.Exchange.{reply_bytes, drop-drop}

module _ {A : Type 0} (class : Function A) where
  -- The host's loop: packets until one is short.
  unfoldable pub read_in : ℕ → ℕ → Device A → ℕ → List ℕ × Device A
  read_in zero max d now = ([], d)
  read_in (suc fuel) max d now =
      let r = input class d 0 max now in
      let more = read_in fuel max r.1 now in
      if ltb (length (reply_bytes r.0)) max
      then (reply_bytes r.0, r.1)
      else (reply_bytes r.0 ++ more.0, more.1)

  step : ℕ → ℕ → ℕ → Reply × Device A → List ℕ × Device A
  step fuel max now r =
      let more = read_in fuel max r.1 now in
      if ltb (length (reply_bytes r.0)) max
      then (reply_bytes r.0, r.1)
      else (reply_bytes r.0 ++ more.0, more.1)

  input-data_in :
      (d : Device A) (reply : List ℕ) (sent max now : ℕ)
      → d.ep0 ≡ data_in reply sent
      → let n = min max (length reply - sent) in
        ◌≡◌ {A = Reply × Device A}
          (input class d 0 max now)
          (packet (take n (drop sent reply)), record d { ep0 = data_in reply (sent + n) })
  unfolding input
  input-data_in d reply sent max now e = ground arith

  both :
      {xs ys : List ℕ} {s t : Device A}
      → xs ≡ ys
      → s ≡ t
      → ◌≡◌ {A = List ℕ × Device A} (xs, s) (ys, t)
  both p q = rw (p, q) refl

  read_in_lem :
      (fuel max now : ℕ) (d : Device A) (reply : List ℕ) (sent : ℕ)
      → d.ep0 ≡ data_in reply sent
      → sent ≤ length reply
      → length reply - sent < fuel
      → 0 < max
      → ◌≡◌ {A = List ℕ × Device A}
          (read_in fuel max d now)
          (drop sent reply, record d { ep0 = data_in reply (length reply) })
  unfolding read_in step
  read_in_lem zero max now d reply sent e h k m = absurd (omega arith)
  read_in_lem (suc fuel) max now d reply sent e h k m =
      let n = min max (length reply - sent) in
      let rest = drop sent reply in
      let len : length (take n rest) ≡ n =
        omega (arith, length-take n rest, length-drop sent reply) in
      ap (step fuel max now) (input-data_in d reply sent max now e)
      ∙ elim (Bool-cases (ltb (length (take n rest)) max)) [
        | inl short ↦
            let all : sent + n ≡ length reply = ground (arith, len) in
            rw short (
              both (take_all n rest (omega (arith, length-drop sent reply, all)))
                (ap (λ (t : ℕ). record d { ep0 = data_in reply t }) all))
        | inr full ↦
            let n_is : n ≡ max = ground (arith, len) in
            rw
              (
                full,
                read_in_lem fuel max now (record d { ep0 = data_in reply (sent + n) }) reply
                    (sent + n) refl (omega arith) (omega (arith, n_is)) m,
              )
              (both
                (ap (λ (t : List ℕ). take n rest ++ t) (sym (drop-drop sent n reply))
                  ∙ take-append-drop n rest)
                refl)
      ]

  setup_token-in :
      (d : Device A) (bytes reply : List ℕ) (now : ℕ)
      → length bytes ≡ 8
      → has (parse bytes).request_type 0x80 ≡ true
      → (request class d (parse bytes) [] now).0 ≡ some reply
      → ◌≡◌ {A = Reply × Device A} (setup_token class d bytes now) (
        ack,
        record (request class d (parse bytes) [] now).1 {
          ep0 = data_in (take (parse bytes).length reply) 0;
        },
      )
  unfolding setup_token
  setup_token-in d bytes reply now l h e = rw (h, e) (ground (arith, l))

  output-status :
      (d : Device A) (reply : List ℕ) (sent : ℕ)
      → d.ep0 ≡ data_in reply sent
      → ◌≡◌ {A = Reply × Device A} (output class d 0 []) (ack, record d { ep0 = idle })
  unfolding output
  output-status d reply sent e = ground arith

  -- A control transfer whose request the device or its class answers with data, read in packets of any size: the host
  -- gets the answer, cut to the length of the SETUP, its status stage is taken, and the control
  -- endpoint is idle, the rest of the device as the request left it.
  pub control_read :
      (d : Device A) (bytes reply : List ℕ) (max now : ℕ)
      → length bytes ≡ 8
      → has (parse bytes).request_type 0x80 ≡ true
      → (request class d (parse bytes) [] now).0 ≡ some reply
      → 0 < max
      → let n = (parse bytes).length in
        let t = setup_token class d bytes now in
        let r = read_in (suc n) max t.1 now in
        (t.0 ≡ ack)
        × (r.0 ≡ take n reply)
        × ◌≡◌ {A = Reply × Device A}
            (output class r.1 0 [])
            (ack, record (request class d (parse bytes) [] now).1 { ep0 = idle })
  control_read d bytes reply max now l h e m =
      let n = (parse bytes).length in
      let u = (request class d (parse bytes) [] now).1 in
      let part = take n reply in
      let begun = setup_token-in d bytes reply now l h e in
      let got =
        ap (λ (x : Reply × Device A). read_in (suc n) max x.1 now) begun
        ∙ read_in_lem (suc n) max now (record u { ep0 = data_in part 0 }) part 0 refl (omega arith)
            (omega (arith, length-take n reply)) m in
      (
        ap (λ (x : Reply × Device A). x.0) begun,
        ap (λ (x : List ℕ × Device A). x.0) got,
        ap (λ (x : List ℕ × Device A). output class x.1 0 []) got
            ∙ output-status (record u { ep0 = data_in part (length part) }) part (length part) refl,
      )
