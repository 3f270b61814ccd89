-- ===== src/Usb/Keyboard.antt =====
-- crates/ue2-core/src/devices/usb/keyboard.rs: the keyboard that the host's key events feed.
use ue2_c64u_emulator.Base.{
  ℕ, ◌+◌, ◌-◌, ◌*◌, ◌/◌, ◌^◌, min, bit_and, bit_or, not8, Bool, true, false, not, ◌&&◌, ◌||◌, ◌==◌,
  leb, if◌then◌else◌, u8, Option, some, none, List, [], ◌∷◌, ◌++◌, length, replicate, take,
}
use ue2_c64u_emulator.Usb.Function.{Reply, packet, nak, stall, Setup}

abbrev pub report_descriptor : List ℕ
report_descriptor =
    0x05 ∷ 0x01 ∷ 0x09 ∷ 0x06 ∷ 0xa1 ∷ 0x01 ∷ 0x05 ∷ 0x07 ∷ 0x19 ∷ 0xe0 ∷ 0x29 ∷ 0xe7 ∷ 0x15 ∷ 0x00
    ∷ 0x25 ∷ 0x01 ∷ 0x75 ∷ 0x01 ∷ 0x95 ∷ 0x08 ∷ 0x81 ∷ 0x02 ∷ 0x95 ∷ 0x01 ∷ 0x75 ∷ 0x08 ∷ 0x81
    ∷ 0x01 ∷ 0x95 ∷ 0x05 ∷ 0x75 ∷ 0x01 ∷ 0x05 ∷ 0x08 ∷ 0x19 ∷ 0x01 ∷ 0x29 ∷ 0x05 ∷ 0x91 ∷ 0x02
    ∷ 0x95 ∷ 0x01 ∷ 0x75 ∷ 0x03 ∷ 0x91 ∷ 0x01 ∷ 0x95 ∷ 0x06 ∷ 0x75 ∷ 0x08 ∷ 0x15 ∷ 0x00 ∷ 0x25
    ∷ 0x65 ∷ 0x05 ∷ 0x07 ∷ 0x19 ∷ 0x00 ∷ 0x29 ∷ 0x65 ∷ 0x81 ∷ 0x00 ∷ 0xc0 ∷ []

abbrev pub queue_limit : ℕ
queue_limit = 64

-- 4 ms of a clock of 100 MHz
abbrev pub idle_unit : ℕ
idle_unit = 400000

abbrev pub default_idle : ℕ
default_idle = 125

-- The report's byte 0 and its bytes from 2 on; byte 1 is always 0.
pub record Report : Type 0 where
  pub modifiers : ℕ
  pub keys : List ℕ

abbrev pub report_bytes : Report → List ℕ
report_bytes r = r.modifiers ∷ 0 ∷ r.keys

abbrev pub list_eq : List ℕ → List ℕ → Bool
list_eq [] [] = true
list_eq (x ∷ xs) (y ∷ ys) = (x == y) && list_eq xs ys
list_eq [] (y ∷ ys) = false
list_eq (x ∷ xs) [] = false

pub record Keyboard : Type 0 where
  pub report : Report
  pub queue : List Report
  pub idle : ℕ
  pub last_sent : ℕ

abbrev pub no_keys : Report
no_keys = record { modifiers = 0; keys = replicate 6 0 }

unfoldable pub new : Keyboard
new = record { report = no_keys; queue = []; idle = default_idle; last_sent = 0 }

abbrev pub is_modifier : ℕ → Bool
is_modifier usage = leb 0xe0 usage && leb usage 0xe7

abbrev pub contains : List ℕ → ℕ → Bool
contains [] usage = false
contains (k ∷ ks) usage = (k == usage) || contains ks usage

-- The usage in the first free place, if there is one.
abbrev pub fill : List ℕ → ℕ → List ℕ
fill [] usage = []
fill (k ∷ ks) usage = if k == 0 then usage ∷ ks else k ∷ fill ks usage

-- The keys after the usage close the gap, and the last place is free.
abbrev pub close_gap : List ℕ → ℕ → List ℕ
close_gap [] usage = []
close_gap (k ∷ ks) usage = if k == usage then ks ++ (0 ∷ []) else k ∷ close_gap ks usage

abbrev pub changed_keys : List ℕ → ℕ → Bool → List ℕ
changed_keys ks usage true = if contains ks usage then ks else fill ks usage
changed_keys ks usage false = if contains ks usage then close_gap ks usage else ks

abbrev pub changed_modifiers : ℕ → ℕ → Bool → ℕ
changed_modifiers m bit true = bit_or m bit
changed_modifiers m bit false = bit_and m (not8 bit)

-- The report after a key event.
unfoldable pub changed : Report → ℕ → Bool → Report
changed r usage down =
    if is_modifier usage
    then record r { modifiers = changed_modifiers r.modifiers (2 ^ (usage - 0xe0)) down }
    else if usage == 0
    then r
    else record r { keys = changed_keys r.keys usage down }

abbrev pub is_same : Report → Report → Bool
is_same r t = list_eq (report_bytes r) (report_bytes t)

-- The queue with one report more; the oldest is lost when it is full.
abbrev drop_first : List Report → List Report
drop_first [] = []
drop_first (r ∷ rs) = rs

abbrev pub push_back : List Report → Report → List Report
push_back q r = (if length q == queue_limit then drop_first q else q) ++ (r ∷ [])

unfoldable pub key : Keyboard → ℕ → Bool → Keyboard
key k usage down =
    let r = changed k.report usage down in
    if is_same r k.report then k else record k { report = r; queue = push_back k.queue r }

unfoldable pub control : Keyboard → Setup → Option (List ℕ) × Keyboard
control k setup =
    if (setup.request_type == 0x81) && (setup.request == 0x06) && (setup.value / 256 == 0x22)
    then (some report_descriptor, k)
    else if (setup.request_type == 0x21) && (setup.request == 0x0a)
    then (some [], record k { idle = u8 (setup.value / 256) })
    else if (setup.request_type == 0xa1) && (setup.request == 0x02)
    then (some (k.idle ∷ []), k)
    else if (setup.request_type == 0x21) && (setup.request == 0x0b)
    then (some [], k)
    else (none, k)

abbrev pub sent : Keyboard → Report → ℕ → ℕ → Reply × Keyboard
sent k r max now = (packet (take (min max 8) (report_bytes r)), record k { last_sent = now })

-- `max` is the room in the host's buffer.
unfoldable pub input : Keyboard → ℕ → ℕ → ℕ → Reply × Keyboard
input k ep max now = if not (ep == 1) then (stall, k) else elim (k.queue) [
  | r ∷ rs ↦ sent (record k { queue = rs }) r max now
  | [] ↦
      if not (k.idle == 0) && leb (k.last_sent + k.idle * idle_unit) now
      then sent k k.report max now
      else (nak, k)
]

unfoldable pub output : Keyboard → ℕ → List ℕ → Reply × Keyboard
output k ep payload = (stall, k)

unfoldable pub reset : Keyboard → Keyboard
reset k = record k { queue = []; idle = default_idle; last_sent = 0 }
