-- ===== src/Usb/Device.antt =====
-- crates/ue2-core/src/devices/usb/device.rs: a device with its address, its configuration and its control
-- endpoint. The class behind it is a parameter; the tree of devices (`find`, `keyboard`, `mouse`) is not here.
use ue2_c64u_emulator.Base.{
  ℕ, ◌+◌, ◌-◌, ◌*◌, ◌/◌, ◌%◌, min, bit_and, not, ◌&&◌, ◌||◌, ◌==◌, ltb, if◌then◌else◌, has, u8,
  Option, some, none, List, [], ◌∷◌, ◌++◌, length, get_or, take, drop,
}
use ue2_c64u_emulator.Usb.Function.{Reply, ack, packet, stall, Setup, parse, Function, Speed}

abbrev pub get_descriptor : ℕ
get_descriptor = 0x06

abbrev pub set_address : ℕ
set_address = 0x05

abbrev pub set_configuration : ℕ
set_configuration = 0x09

abbrev pub languages : List ℕ
languages = 0x04 ∷ 0x03 ∷ 0x09 ∷ 0x04 ∷ []

pub data Ep0 : Type 0 where
  idle : Ep0
  data_in : (reply : List ℕ) → (sent : ℕ) → Ep0
  data_out : Setup → (received : List ℕ) → Ep0
  status_in : (address : Option ℕ) → Ep0
  stalled : Ep0

pub record Device (A : Type 0) : Type 0 where
  pub address : ℕ
  pub configuration : ℕ
  pub ep0 : Ep0
  pub function : A

-- The bytes of UTF-16 code units.
abbrev utf_16_bytes : List ℕ → List ℕ
utf_16_bytes [] = []
utf_16_bytes (c ∷ cs) = u8 c ∷ u8 (c / 256) ∷ utf_16_bytes cs

-- The text is given by its UTF-16 code units.
unfoldable pub string_descriptor : List ℕ → List ℕ
string_descriptor text = u8 (length text * 2 + 2) ∷ 0x03 ∷ utf_16_bytes text

abbrev pub nth : List (List ℕ) → ℕ → Option (List ℕ)
nth [] n = none
nth (x ∷ xs) n = if n == 0 then some x else nth xs (n - 1)

-- The control endpoint after a SETUP with a data stage from the device.
abbrev pub in_stage : Setup → Option (List ℕ) → Ep0
in_stage setup (some reply) = data_in (take setup.length reply) 0
in_stage setup none = stalled

-- The control endpoint after a SETUP without a data stage.
abbrev pub no_stage : Setup → Option (List ℕ) → Ep0
no_stage setup (some reply) =
    if setup.request == set_address
    then status_in (some (bit_and setup.value 0x7f))
    else status_in none
no_stage setup none = stalled

module _ {A : Type 0} where
  unfoldable pub new : A → Device A
  new function = record { address = 0; configuration = 0; ep0 = idle; function = function }

module _ {A : Type 0} (class : Function A) where
  unfoldable pub speed : Device A → Speed
  speed d = class.speed d.function

  unfoldable pub reset : Device A → Device A
  reset d = record { address = 0; configuration = 0; ep0 = idle; function = class.reset d.function }

  -- What the class answers.
  unfoldable pub class_control : Device A → Setup → List ℕ → ℕ → Option (List ℕ) × Device A
  class_control d setup payload now =
      let r = class.control d.function setup payload now in (r.0, record d { function = r.1 })

  unfoldable pub descriptor : Device A → Setup → ℕ → Option (List ℕ) × Device A
  descriptor d setup now =
      let index = setup.value % 256 in
      let kind = u8 (setup.value / 256) in
      let texts = class.strings d.function in
      if kind == 0x01
      then (some (class.device_descriptor d.function), d)
      else if (kind == 0x02) && (index == 0)
      then (some (class.configuration d.function), d)
      else if (kind == 0x03) && (length texts == 0)
      then (none, d)
      else if (kind == 0x03) && (index == 0)
      then (some languages, d)
      else if kind == 0x03
      then (
        elim (nth texts (index - 1)) [ some text ↦ some (string_descriptor text) | none ↦ none ],
        d,
      )
      else class_control d setup [] now

  -- `configuration()[5]` is there: a configuration descriptor has more than six bytes.
  unfoldable pub request : Device A → Setup → List ℕ → ℕ → Option (List ℕ) × Device A
  request d setup payload now =
      let value = u8 setup.value in
      if (setup.request_type == 0x80) && (setup.request == get_descriptor)
      then descriptor d setup now
      else if (setup.request_type == 0x00) && (setup.request == set_address)
      then (some [], d)
      else if (setup.request_type == 0x00) && (setup.request == set_configuration)
      then (if (value == 0) || (value == get_or (class.configuration d.function) 5 0)
          then (some [], record d { configuration = value })
          else (none, d))
      else class_control d setup payload now

  unfoldable pub setup_token : Device A → List ℕ → ℕ → Reply × Device A
  setup_token d bytes now =
      let setup = parse bytes in
      let r = request d setup [] now in
      if not (length bytes == 8)
      then (stall, d)
      else if has setup.request_type 0x80
      then (ack, record r.1 { ep0 = in_stage setup r.0 })
      else if ltb 0 setup.length
      then (ack, record d { ep0 = data_out setup [] })
      else (ack, record r.1 { ep0 = no_stage setup r.0 })

  -- IN on the control endpoint at one of its stages; `max` is the room in the host's buffer.
  abbrev pub input_stage : Device A → Ep0 → ℕ → ℕ → Reply × Device A
  input_stage d (data_in reply sent) max now =
      let n = min max (length reply - sent) in
      (packet (take n (drop sent reply)), record d { ep0 = data_in reply (sent + n) })
  input_stage d (status_in (some a)) max now = (packet [], record d { address = a; ep0 = idle })
  input_stage d (status_in none) max now = (packet [], record d { ep0 = idle })
  input_stage d (data_out setup received) max now =
      let r = request (record d { ep0 = idle }) setup received now in
      (elim (r.0) [ some reply ↦ packet [] | none ↦ stall ], r.1)
  input_stage d idle max now = (stall, record d { ep0 = stalled })
  input_stage d stalled max now = (stall, record d { ep0 = stalled })

  unfoldable pub input : Device A → ℕ → ℕ → ℕ → Reply × Device A
  input d ep max now =
      let f = class.input d.function ep max now in
      if ep == 0
      then input_stage d d.ep0 max now
      else if d.configuration == 0
      then (stall, d)
      else (f.0, record d { function = f.1 })

  -- OUT on the control endpoint at one of its stages.
  abbrev pub output_stage : Device A → Ep0 → List ℕ → Reply × Device A
  output_stage d (data_out setup received) payload =
      let room = setup.length - length received in
      (
        ack,
        record d { ep0 = data_out setup (received ++ take (min (length payload) room) payload) },
      )
  output_stage d (data_in reply sent) payload = (ack, record d { ep0 = idle })
  output_stage d idle payload = (stall, record d { ep0 = stalled })
  output_stage d (status_in address) payload = (stall, record d { ep0 = stalled })
  output_stage d stalled payload = (stall, record d { ep0 = stalled })

  unfoldable pub output : Device A → ℕ → List ℕ → Reply × Device A
  output d ep payload =
      let f = class.output d.function ep payload in
      if ep == 0
      then output_stage d d.ep0 payload
      else if d.configuration == 0
      then (stall, d)
      else (f.0, record d { function = f.1 })
