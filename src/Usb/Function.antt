-- ===== src/Usb/Function.antt =====
-- crates/ue2-core/src/devices/usb/device.rs: what the classes of devices share.
use ue2_c64u_emulator.Base.{ℕ, ◌+◌, ◌*◌, Option, List, get_or}

pub data Speed : Type 0 where
  full : Speed
  high : Speed

-- The answer to a token; `packet` has the bytes that the source puts into the host's buffer.
pub data Reply : Type 0 where
  ack : Reply
  packet : List ℕ → Reply
  nak : Reply
  stall : Reply

pub record Setup : Type 0 where
  pub request_type : ℕ
  pub request : ℕ
  pub value : ℕ
  pub index : ℕ
  pub length : ℕ

-- `u16::from_le_bytes` at a place of a packet.
abbrev pub u16_at : List ℕ → ℕ → ℕ
u16_at b i = get_or b i 0 + get_or b (i + 1) 0 * 256

abbrev pub u32_at : List ℕ → ℕ → ℕ
u32_at b i = u16_at b i + u16_at b (i + 2) * 65536

unfoldable pub parse : List ℕ → Setup
parse b = record {
  request_type = get_or b 0 0;
  request = get_or b 1 0;
  value = u16_at b 2;
  index = u16_at b 4;
  length = u16_at b 6;
}

-- What a class adds to the control endpoint. The number after the endpoint of `input` is the room in the
-- host's buffer, and the last one of `control` and `input` the time.
pub record Function (A : Type 0) : Type 0 where
  pub speed : A → Speed
  pub device_descriptor : A → List ℕ
  pub configuration : A → List ℕ
  pub strings : A → List (List ℕ)
  pub control : A → Setup → List ℕ → ℕ → Option (List ℕ) × A
  pub input : A → ℕ → ℕ → ℕ → Reply × A
  pub output : A → ℕ → List ℕ → Reply × A
  pub reset : A → A
