-- ===== src/Usb/Hub.antt =====
-- crates/ue2-core/src/devices/usb/hub.rs: the hub and its ports. The devices on them are a parameter with
-- their speed and their reset.
use ue2_c64u_emulator.Base.{
  ℕ, zero, suc, ◌-◌, ◌*◌, ◌/◌, ◌^◌, bit_and, bit_or, Bool, true, false, not, ◌&&◌, ◌||◌, ◌==◌,
  bool_eq, leb, if◌then◌else◌, u8, Option, some, none, List, [], ◌∷◌, length, map, replicate,
}
use ue2_c64u_emulator.Usb.Function.{Reply, packet, nak, stall, Setup, Speed, full, high}

abbrev pub ports_count : ℕ
ports_count = 3

abbrev pub hub_descriptor : List ℕ
hub_descriptor = 0x09 ∷ 0x29 ∷ 3 ∷ 0x09 ∷ 0x00 ∷ 0x32 ∷ 0x01 ∷ 0x00 ∷ 0xff ∷ []

abbrev pub ep_status : ℕ
ep_status = 1

abbrev pub change_connection : ℕ
change_connection = 0x01

abbrev pub change_reset : ℕ
change_reset = 0x10

-- What the hub uses of a device.
pub record Downstream (D : Type 0) : Type 0 where
  pub speed : D → Speed
  pub reset : D → D

pub record Port (D : Type 0) : Type 0 where
  pub device : Option D
  pub connected : Bool
  pub powered : Bool
  pub enabled : Bool
  pub change : ℕ

pub record Hub (D : Type 0) : Type 0 where
  pub ports : List (Port D)

abbrev pub is_some {ℓ} : {A : Type ℓ} → Option A → Bool
is_some (some a) = true
is_some none = false

abbrev pub is_high : Speed → Bool
is_high high = true
is_high full = false

module _ {D : Type 0} where
  -- Ports are counted from 1.
  abbrev pub port_at : List (Port D) → ℕ → Option (Port D)
  port_at [] n = none
  port_at (p ∷ ps) zero = none
  port_at (p ∷ ps) (suc zero) = some p
  port_at (p ∷ ps) (suc (suc n)) = port_at ps (suc n)

  abbrev pub put_port : List (Port D) → ℕ → Port D → List (Port D)
  put_port [] n q = []
  put_port (p ∷ ps) zero q = p ∷ ps
  put_port (p ∷ ps) (suc zero) q = q ∷ ps
  put_port (p ∷ ps) (suc (suc n)) q = p ∷ put_port ps (suc n) q

  abbrev pub set_port : Hub D → ℕ → Port D → Hub D
  set_port h n q = record h { ports = put_port h.ports n q }

  abbrev pub new_port : Option D → Port D
  new_port device = record {
    device = device;
    connected = true;
    powered = false;
    enabled = false;
    change = 0;
  }

  abbrev pub new_ports : ℕ → List (Option D) → List (Port D)
  new_ports zero ds = []
  new_ports (suc n) [] = new_port none ∷ new_ports n []
  new_ports (suc n) (d ∷ ds) = new_port d ∷ new_ports n ds

  -- `none` is the panic on too many ports.
  unfoldable pub with_ports : List (Option D) → Option (Hub D)
  with_ports ds =
      if leb (length ds) ports_count then some record { ports = new_ports ports_count ds } else none

  unfoldable pub clear_feature : Port D → ℕ → Bool × Port D
  clear_feature p feature =
      if feature == 0x01
      then (true, record p { enabled = false })
      else if feature == 0x08
      then (true, record p { powered = false; enabled = false })
      else if leb 0x10 feature && leb feature 0x14
      then (true, record p { change = bit_and p.change (0xffff - 2 ^ (feature - 0x10)) })
      else (false, p)

  abbrev enabled_devices_of : List (Port D) → List D
  enabled_devices_of [] = []
  enabled_devices_of (p ∷ ps) =
      let more = enabled_devices_of ps in
      if p.enabled && p.connected then elim (p.device) [ some d ↦ d ∷ more | none ↦ more ] else more

  unfoldable pub enabled_devices : Hub D → List D
  enabled_devices h = enabled_devices_of h.ports

  abbrev device_of : Option (Port D) → Option D
  device_of (some p) = p.device
  device_of none = none

  unfoldable pub port_device : Hub D → ℕ → Option D
  port_device h n = device_of (port_at h.ports n)

  unfoldable pub take : Hub D → ℕ → Option D × Hub D
  take h n = elim (port_at h.ports n) [
    | some p ↦ (p.device, set_port h n (record p { device = none }))
    | none ↦ (none, h)
  ]

  -- `none` is the source's error: no such port, or a port in use.
  unfoldable pub insert_unplugged : Hub D → ℕ → D → Option (Hub D)
  insert_unplugged h n device = elim (port_at h.ports n) [
    | some p ↦
        if is_some p.device
        then none
        else some (set_port h n (record p { device = some device; connected = false }))
    | none ↦ none
  ]

  unfoldable pub insert : Hub D → ℕ → D → Option (Hub D)
  insert h n device = elim (port_at h.ports n) [
    | some p ↦
        if is_some p.device
        then none
        else some (
            set_port h n (record p {
              device = some device;
              connected = true;
              change = if p.powered then bit_or p.change change_connection else p.change;
            }))
    | none ↦ none
  ]

  unfoldable pub plug : Port D → Bool → Port D
  plug p connected = record p {
    connected = connected;
    enabled = if connected then p.enabled else false;
    change = if p.powered && is_some p.device then bit_or p.change change_connection else p.change;
  }

  unfoldable pub set_connected : Hub D → ℕ → Bool → Bool × Hub D
  set_connected h n connected = elim (port_at h.ports n) [
    | some p ↦
        if bool_eq p.connected connected
        then (false, h)
        else (true, set_port h n (plug p connected))
    | none ↦ (false, h)
  ]

  unfoldable pub port_state : Hub D → ℕ → Option (Bool × Bool × Bool)
  port_state h n = elim (port_at h.ports n) [
    | some p ↦
        some (p.connected, p.enabled, not p.powered || (bit_and p.change change_connection == 0))
    | none ↦ none
  ]

  -- Bit n of the bitmap for port n; the list starts at a port whose bit is given.
  abbrev pub bitmap : List (Port D) → ℕ → ℕ
  bitmap [] bit = 0
  bitmap (p ∷ ps) bit =
      let more = bitmap ps (bit * 2) in if p.change == 0 then more else bit_or bit more

  unfoldable pub input : Hub D → ℕ → ℕ → Reply × Hub D
  input h ep max =
      let changed = bitmap h.ports 2 in
      if not (ep == ep_status) || (max == 0)
      then (stall, h)
      else if changed == 0
      then (nak, h)
      else (packet (changed ∷ []), h)

  unfoldable pub output : Hub D → ℕ → List ℕ → Reply × Hub D
  output h ep payload = (stall, h)

module _ {D : Type 0} (downstream : Downstream D) where
  abbrev status_bits : Port D → ℕ
  status_bits p =
      let here : ℕ = elim (p.device) [
        | some d ↦
            if p.connected then if is_high (downstream.speed d) then 0x0401 else 0x0001 else 0
        | none ↦ 0
      ] in
      bit_or (if p.powered then bit_or 0x0100 here else 0) (if p.enabled then 0x0002 else 0)

  unfoldable pub status : Port D → List ℕ
  status p = let s = status_bits p in u8 s ∷ u8 (s / 256) ∷ u8 p.change ∷ u8 (p.change / 256) ∷ []

  unfoldable pub set_feature : Port D → ℕ → Bool × Port D
  set_feature p feature =
      let arrived = not p.powered && is_some p.device && p.connected in
      let p' = record p { change = bit_or p.change change_reset } in
      if feature == 0x08
      then (
        true,
        record p {
          powered = true;
          change = if arrived then bit_or p.change change_connection else p.change;
        },
      )
      else if (feature == 0x04) && p.powered
      then (
        true,
        elim (p.device) [
          | some d ↦
              if p.connected
              then record p' { device = some (downstream.reset d); enabled = true }
              else p'
          | none ↦ p'
        ],
      )
      else (false, p)

  -- A request to a port: `none` is a STALL.
  abbrev on_port : Hub D → ℕ → (Port D → Bool × Port D) → Option (List ℕ) × Hub D
  on_port h n f = elim (port_at h.ports n) [
    | some p ↦ let r = f p in ((if r.0 then some [] else none), set_port h n r.1)
    | none ↦ (none, h)
  ]

  unfoldable pub control : Hub D → Setup → Option (List ℕ) × Hub D
  control h setup =
      if (setup.request_type == 0xa0) && (setup.request == 0x06) && (setup.value / 256 == 0x29)
      then (some hub_descriptor, h)
      else if (setup.request_type == 0xa0) && (setup.request == 0x00)
      then (some (replicate 4 0), h)
      else if (setup.request_type == 0xa3) && (setup.request == 0x00)
      then ((elim (port_at h.ports setup.index) [ some p ↦ some (status p) | none ↦ none ]), h)
      else if (setup.request_type == 0x23) && (setup.request == 0x03)
      then on_port h setup.index (λ p. set_feature p setup.value)
      else if (setup.request_type == 0x23) && (setup.request == 0x01)
      then on_port h setup.index (λ p. clear_feature p setup.value)
      else (none, h)

  abbrev pub reset_port : Port D → Port D
  reset_port p = record p {
    powered = false;
    enabled = false;
    change = 0;
    device = elim (p.device) [ some d ↦ some (downstream.reset d) | none ↦ none ];
  }

  unfoldable pub reset : Hub D → Hub D
  reset h = record h { ports = map reset_port h.ports }
