-- ===== src/Usb/Stages.antt =====
-- The stages of control transfers: their bounds over any run of tokens, and when a new address applies.
use ue2_c64u_emulator.Base.{
  ℕ, ◌-◌, ◌/◌, ◌%◌, ◌<◌, ◌≤◌, ◌≡◌, refl, sym, ap, ◌∙◌, arith, min, bit_and, not, ◌&&◌, ◌||◌, ◌==◌,
  ltb, if_elim, if_cases, has, u8, Option, some, none, List, [], ◌∷◌, length, length-append, get_or,
  take, length-take,
}
use ue2_c64u_emulator.Base.Bits.{bit_and-le}
use ue2_c64u_emulator.Usb.Function.{Reply, ack, packet, Setup, parse, Function}
use ue2_c64u_emulator.Usb.Device.{
  Device, Ep0, idle, data_in, data_out, status_in, stalled, setup_token, request, input, output,
  input_stage, output_stage, reset, in_stage, no_stage, set_address, descriptor, class_control,
}

-- What was sent is no more than there is, what was received no more than was announced, an address
-- has seven bits.
abbrev pub StageInBounds : Ep0 → Type 0
StageInBounds idle = Unit {0}
StageInBounds (data_in reply sent) = sent ≤ length reply
StageInBounds (data_out setup received) = length received ≤ setup.length
StageInBounds (status_in (some a)) = a < 128
StageInBounds (status_in none) = Unit {0}
StageInBounds stalled = Unit {0}

pub record InBounds {A : Type 0} (d : Device A) : Type 0 where
  pub stage : StageInBounds d.ep0
  pub address : d.address < 128

-- The tokens that a device gets, and a reset.
pub data Event : Type 0 where
  setup : List ℕ → ℕ → Event
  ask : (ep max now : ℕ) → Event
  give : (ep : ℕ) → List ℕ → Event
  bus_reset : Event

-- Traffic on the other endpoints.
abbrev pub IsElsewhere : Event → Type 0
IsElsewhere (setup bytes now) = ⊥
IsElsewhere (ask ep max now) = 0 < ep
IsElsewhere (give ep payload) = 0 < ep
IsElsewhere bus_reset = ⊥

abbrev pub AreElsewhere : List Event → Type 0
AreElsewhere [] = Unit {0}
AreElsewhere (e ∷ es) = IsElsewhere e × AreElsewhere es

module _ {A : Type 0} (class : Function A) where
  unfoldable pub handle : Device A → Event → Device A
  handle d (setup bytes now) = (setup_token class d bytes now).1
  handle d (ask ep max now) = (input class d ep max now).1
  handle d (give ep payload) = (output class d ep payload).1
  handle d bus_reset = reset class d

  unfoldable pub handle_all : Device A → List Event → Device A
  handle_all d [] = d
  handle_all d (e ∷ es) = handle_all (handle d e) es

  -- A request changes neither the address nor the stage.
  record Keeps (d t : Device A) : Type 0 where
    address : t.address ≡ d.address
    ep0 : t.ep0 ≡ d.ep0

  abbrev KeepsIn : Device A → Option (List ℕ) × Device A → Type 0
  KeepsIn d r = Keeps d r.1

  same : (d : Device A) → Keeps d d
  same d = record { address = refl; ep0 = refl }

  class_control-Keeps :
      (d : Device A) (s : Setup) (payload : List ℕ) (now : ℕ)
      → KeepsIn d (class_control class d s payload now)
  unfolding class_control
  class_control-Keeps d s payload now = record { address = refl; ep0 = refl }

  descriptor-Keeps : (d : Device A) (s : Setup) (now : ℕ) → KeepsIn d (descriptor class d s now)
  unfolding descriptor
  descriptor-Keeps d s now =
      let index = s.value % 256 in
      let kind = u8 (s.value / 256) in
      let texts = class.strings d.function in
      if_elim (KeepsIn d) (kind == 0x01) _ _ (same d) (
        if_elim (KeepsIn d) ((kind == 0x02) && (index == 0)) _ _ (same d) (
          if_elim (KeepsIn d) ((kind == 0x03) && (length texts == 0)) _ _ (same d) (
            if_elim (KeepsIn d) ((kind == 0x03) && (index == 0)) _ _ (same d)
              (if_elim (KeepsIn d) (kind == 0x03) _ _ (same d) (class_control-Keeps d s [] now)))))

  request-Keeps :
      (d : Device A) (s : Setup) (payload : List ℕ) (now : ℕ)
      → KeepsIn d (request class d s payload now)
  unfolding request
  request-Keeps d s payload now =
      let value = u8 s.value in
      let known = (value == 0) || (value == get_or (class.configuration d.function) 5 0) in
      if_elim (KeepsIn d) ((s.request_type == 0x80) && (s.request == 6)) _ _
        (descriptor-Keeps d s now)
        (if_elim (KeepsIn d) ((s.request_type == 0x00) && (s.request == set_address)) _ _ (same d) (
          if_elim (KeepsIn d) ((s.request_type == 0x00) && (s.request == 9)) _ _
            (if_elim (KeepsIn d) known _ _ (record { address = refl; ep0 = refl }) (same d))
            (class_control-Keeps d s payload now)))

  in_stage-InBounds : (s : Setup) (o : Option (List ℕ)) → StageInBounds (in_stage s o)
  in_stage-InBounds s none = tt
  in_stage-InBounds s (some reply) = omega arith

  no_stage-InBounds : (s : Setup) (o : Option (List ℕ)) → StageInBounds (no_stage s o)
  no_stage-InBounds s none = tt
  no_stage-InBounds s (some reply) =
      if_elim StageInBounds (s.request == set_address) _ _ (omega (arith, bit_and-le s.value 0x7f))
        tt

  abbrev Fine : Reply × Device A → Type 0
  Fine r = InBounds r.1

  setup_token-InBounds :
      (d : Device A) (bytes : List ℕ) (now : ℕ) → InBounds d → Fine (setup_token class d bytes now)
  unfolding setup_token
  setup_token-InBounds d bytes now v =
      let s = parse bytes in
      let r = request class d s [] now in
      let low : r.1.address < 128 = omega (arith, (request-Keeps d s [] now).address, v.address) in
      if_elim Fine (not (length bytes == 8)) _ _ v (
        if_elim Fine (has s.request_type 0x80) _ _
          (record { stage = in_stage-InBounds s r.0; address = low })
          (if_elim Fine (ltb 0 s.length) _ _ (record { stage = omega arith; address = v.address })
            (record { stage = no_stage-InBounds s r.0; address = low })))

  input_stage-InBounds :
      (d : Device A) (e : Ep0) (max now : ℕ)
      → StageInBounds e
      → d.address < 128
      → Fine (input_stage class d e max now)
  input_stage-InBounds d idle max now h k = record { stage = tt; address = k }
  input_stage-InBounds d stalled max now h k = record { stage = tt; address = k }
  input_stage-InBounds d (data_in reply sent) max now h k = record {
    stage = omega (arith, h);
    address = k;
  }
  input_stage-InBounds d (status_in (some a)) max now h k = record { stage = tt; address = h }
  input_stage-InBounds d (status_in none) max now h k = record { stage = tt; address = k }
  input_stage-InBounds d (data_out s received) max now h k =
      let t = record d { ep0 = idle } in
      let kept = request-Keeps t s received now in
      record { stage = rw kept.ep0 tt; address = omega (arith, kept.address, k) }

  input-InBounds : (d : Device A) (ep max now : ℕ) → InBounds d → Fine (input class d ep max now)
  unfolding input
  input-InBounds d ep max now v =
      if_elim Fine (ep == 0) _ _ (input_stage-InBounds d d.ep0 max now v.stage v.address) (
        if_elim Fine (d.configuration == 0) _ _ v (record { stage = v.stage; address = v.address }))

  output_stage-InBounds :
      (d : Device A) (e : Ep0) (payload : List ℕ)
      → StageInBounds e
      → d.address < 128
      → Fine (output_stage class d e payload)
  output_stage-InBounds d idle payload h k = record { stage = tt; address = k }
  output_stage-InBounds d stalled payload h k = record { stage = tt; address = k }
  output_stage-InBounds d (data_in reply sent) payload h k = record { stage = tt; address = k }
  output_stage-InBounds d (status_in address) payload h k = record { stage = tt; address = k }
  output_stage-InBounds d (data_out s received) payload h k =
      let n = min (length payload) (s.length - length received) in
      record {
        stage = omega (arith, h, length-append received (take n payload), length-take n payload);
        address = k;
      }

  output-InBounds :
      (d : Device A) (ep : ℕ) (payload : List ℕ) → InBounds d → Fine (output class d ep payload)
  unfolding output
  output-InBounds d ep payload v =
      if_elim Fine (ep == 0) _ _ (output_stage-InBounds d d.ep0 payload v.stage v.address) (
        if_elim Fine (d.configuration == 0) _ _ v (record { stage = v.stage; address = v.address }))

  handle-InBounds : (d : Device A) (e : Event) → InBounds d → InBounds (handle d e)
  unfolding handle reset
  handle-InBounds d (setup bytes now) v = setup_token-InBounds d bytes now v
  handle-InBounds d (ask ep max now) v = input-InBounds d ep max now v
  handle-InBounds d (give ep payload) v = output-InBounds d ep payload v
  handle-InBounds d bus_reset v = record { stage = tt; address = omega arith }

  -- Whatever tokens and resets a device gets and whatever its class answers, the control endpoint never sends
  -- past its answer or receives past the announced length, and the address keeps to seven bits.
  pub handle_all-InBounds :
      (d : Device A) (es : List Event) → InBounds d → InBounds (handle_all d es)
  unfolding handle_all
  handle_all-InBounds d [] v = v
  handle_all-InBounds d (e ∷ es) v = handle_all-InBounds (handle d e) es (handle-InBounds d e v)

  abbrev KeepsOn : Device A → Reply × Device A → Type 0
  KeepsOn d r = Keeps d r.1

  elsewhere_one : (d : Device A) (e : Event) → IsElsewhere e → Keeps d (handle d e)
  unfolding handle input output
  elsewhere_one d (setup bytes now) h = absurd h
  elsewhere_one d bus_reset h = absurd h
  elsewhere_one d (ask ep max now) h =
      if_cases (KeepsOn d) (ep == 0) _ _ (λ p. absurd (ground arith))
        (λ p.
          if_elim (KeepsOn d) (d.configuration == 0) _ _ (same d)
            (record { address = refl; ep0 = refl }))
  elsewhere_one d (give ep payload) h =
      if_cases (KeepsOn d) (ep == 0) _ _ (λ p. absurd (ground arith))
        (λ p.
          if_elim (KeepsOn d) (d.configuration == 0) _ _ (same d)
            (record { address = refl; ep0 = refl }))

  elsewhere_all : (d : Device A) (es : List Event) → AreElsewhere es → Keeps d (handle_all d es)
  unfolding handle_all
  elsewhere_all d [] h = same d
  elsewhere_all d (e ∷ es) h =
      let first = elsewhere_one d e h.0 in
      let rest = elsewhere_all (handle d e) es h.1 in
      record { address = rest.address ∙ first.address; ep0 = rest.ep0 ∙ first.ep0 }

  setup_token-set_address :
      (d : Device A) (bytes : List ℕ) (now : ℕ)
      → length bytes ≡ 8
      → (parse bytes).request_type ≡ 0
      → (parse bytes).request ≡ 5
      → (parse bytes).length ≡ 0
      → ◌≡◌ {A = Reply × Device A}
          (setup_token class d bytes now)
          (ack, record d { ep0 = status_in (some (bit_and (parse bytes).value 0x7f)) })
  unfolding setup_token request has
  setup_token-set_address d bytes now l t r n = ground (arith, l, t, r, n)

  input-status :
      (d : Device A) (a max now : ℕ)
      → d.ep0 ≡ status_in (some a)
      → ◌≡◌ {A = Reply × Device A}
          (input class d 0 max now)
          (packet [], record d { address = a; ep0 = idle })
  unfolding input
  input-status d a max now e = ap (λ (x : Ep0). input_stage class d x max now) e

  -- A SET_ADDRESS is acknowledged and changes nothing but the stage of the control endpoint: through any traffic on the other
  -- endpoints the device keeps its old address, and the host's status stage gives it the new one,
  -- cut to seven bits.
  pub set_address_lem :
      (d : Device A) (bytes : List ℕ) (es : List Event) (now max later : ℕ)
      → length bytes ≡ 8
      → (parse bytes).request_type ≡ 0
      → (parse bytes).request ≡ 5
      → (parse bytes).length ≡ 0
      → AreElsewhere es
      → let r = setup_token class d bytes now in
        let t = handle_all r.1 es in
        (r ≡ (ack, record d { ep0 = r.1.ep0 }))
        × (t.address ≡ d.address)
        × ◌≡◌ {A = Reply × Device A}
            (input class t 0 max later)
            (packet [], record t { address = bit_and (parse bytes).value 0x7f; ep0 = idle })
  set_address_lem d bytes es now max later l t r n away =
      let a = bit_and (parse bytes).value 0x7f in
      let begun = setup_token-set_address d bytes now l t r n in
      let u = (setup_token class d bytes now).1 in
      let kept = elsewhere_all u es away in
      (
        begun
            ∙ ap (λ (x : Ep0). (ack, record d { ep0 = x }))
                (sym (ap (λ (x : Reply × Device A). x.1.ep0) begun)),
        kept.address ∙ ap (λ (x : Reply × Device A). x.1.address) begun,
        input-status (handle_all u es) a max later
            (kept.ep0 ∙ ap (λ (x : Reply × Device A). x.1.ep0) begun),
      )
