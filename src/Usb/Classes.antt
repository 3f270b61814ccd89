-- ===== src/Usb/Classes.antt =====
-- The classes of devices behind the control endpoint: crates/ue2-core/src/devices/usb/{storage,hub,keyboard}.rs,
-- the descriptors and `impl Function`. Texts are lists of their characters' codes.
use ue2_c64u_emulator.Base.{ℕ, List, [], ◌∷◌}
use ue2_c64u_emulator.Usb.Function.{Function, full, high}
use ue2_c64u_emulator.Usb.Storage
use ue2_c64u_emulator.Usb.Hub
use ue2_c64u_emulator.Usb.Keyboard
use ue2_c64u_emulator.Usb.Device

abbrev pub storage_device : List ℕ
storage_device =
    0x12 ∷ 0x01 ∷ 0x00 ∷ 0x02 ∷ 0x00 ∷ 0x00 ∷ 0x00 ∷ 0x40 ∷ 0x09 ∷ 0x12 ∷ 0x01 ∷ 0x00 ∷ 0x00 ∷ 0x01
    ∷ 0x01 ∷ 0x02 ∷ 0x03 ∷ 0x01 ∷ []

abbrev pub storage_configuration : List ℕ
storage_configuration =
    0x09 ∷ 0x02 ∷ 32 ∷ 0x00 ∷ 0x01 ∷ 0x01 ∷ 0x00 ∷ 0x80 ∷ 0x32 ∷ 0x09 ∷ 0x04 ∷ 0x00 ∷ 0x00 ∷ 0x02
    ∷ 0x08 ∷ 0x06 ∷ 0x50 ∷ 0x00 ∷ 0x07 ∷ 0x05 ∷ 0x81 ∷ 0x02 ∷ 0x00 ∷ 0x02 ∷ 0x00 ∷ 0x07 ∷ 0x05
    ∷ 0x02 ∷ 0x02 ∷ 0x00 ∷ 0x02 ∷ 0x00 ∷ []

abbrev pub hub_device : List ℕ
hub_device =
    0x12 ∷ 0x01 ∷ 0x00 ∷ 0x02 ∷ 0x09 ∷ 0x00 ∷ 0x01 ∷ 0x40 ∷ 0x24 ∷ 0x04 ∷ 0x13 ∷ 0x25 ∷ 0xa0 ∷ 0x0b
    ∷ 0x00 ∷ 0x00 ∷ 0x00 ∷ 0x01 ∷ []

abbrev pub hub_configuration : List ℕ
hub_configuration =
    0x09 ∷ 0x02 ∷ 25 ∷ 0x00 ∷ 0x01 ∷ 0x01 ∷ 0x00 ∷ 0xe0 ∷ 0x01 ∷ 0x09 ∷ 0x04 ∷ 0x00 ∷ 0x00 ∷ 0x01
    ∷ 0x09 ∷ 0x00 ∷ 0x00 ∷ 0x00 ∷ 0x07 ∷ 0x05 ∷ 0x81 ∷ 0x03 ∷ 0x01 ∷ 0x00 ∷ 0x0c ∷ []

abbrev pub keyboard_device : List ℕ
keyboard_device =
    0x12 ∷ 0x01 ∷ 0x00 ∷ 0x02 ∷ 0x00 ∷ 0x00 ∷ 0x00 ∷ 0x40 ∷ 0x09 ∷ 0x12 ∷ 0x02 ∷ 0x00 ∷ 0x00 ∷ 0x01
    ∷ 0x01 ∷ 0x02 ∷ 0x00 ∷ 0x01 ∷ []

abbrev pub keyboard_configuration : List ℕ
keyboard_configuration =
    0x09 ∷ 0x02 ∷ 34 ∷ 0x00 ∷ 0x01 ∷ 0x01 ∷ 0x00 ∷ 0xa0 ∷ 0x32 ∷ 0x09 ∷ 0x04 ∷ 0x00 ∷ 0x00 ∷ 0x01
    ∷ 0x03 ∷ 0x01 ∷ 0x01 ∷ 0x00 ∷ 0x09 ∷ 0x21 ∷ 0x11 ∷ 0x01 ∷ 0x00 ∷ 0x01 ∷ 0x22 ∷ 63 ∷ 0x00 ∷ 0x07
    ∷ 0x05 ∷ 0x81 ∷ 0x03 ∷ 0x08 ∷ 0x00 ∷ 0x0a ∷ []

abbrev pub storage_strings : List (List ℕ)
storage_strings =
    (85 ∷ 69 ∷ 50 ∷ 69 ∷ 77 ∷ 85 ∷ [])
    ∷ (85 ∷ 83 ∷ 66 ∷ 32 ∷ 68 ∷ 105 ∷ 115 ∷ 107 ∷ 32 ∷ 73 ∷ 109 ∷ 97 ∷ 103 ∷ 101 ∷ [])
    ∷ (85 ∷ 69 ∷ 50 ∷ 69 ∷ 77 ∷ 85 ∷ 48 ∷ 48 ∷ 48 ∷ 49 ∷ [])
    ∷ []

abbrev pub keyboard_strings : List (List ℕ)
keyboard_strings =
    (85 ∷ 69 ∷ 50 ∷ 69 ∷ 77 ∷ 85 ∷ [])
    ∷ (85 ∷ 83 ∷ 66 ∷ 32 ∷ 75 ∷ 101 ∷ 121 ∷ 98 ∷ 111 ∷ 97 ∷ 114 ∷ 100 ∷ [])
    ∷ []

unfoldable pub keyboard_class : Function Keyboard.Keyboard
keyboard_class = record {
  speed = λ k. full;
  device_descriptor = λ k. keyboard_device;
  configuration = λ k. keyboard_configuration;
  strings = λ k. keyboard_strings;
  control = λ k setup payload now. Keyboard.control k setup;
  input = λ k ep max now. Keyboard.input k ep max now;
  output = λ k ep payload. Keyboard.output k ep payload;
  reset = λ k. Keyboard.reset k;
}

unfoldable pub storage_class : {M : Type 0} → Storage.BlockBackend M → Function (Storage.Storage M)
storage_class dev = record {
  speed = λ s. high;
  device_descriptor = λ s. storage_device;
  configuration = λ s. storage_configuration;
  strings = λ s. storage_strings;
  control = λ s setup payload now. (Storage.control dev setup, s);
  input = λ s ep max now. Storage.input dev s ep max;
  output = λ s ep payload. Storage.output dev s ep payload;
  reset = λ s. Storage.reset s;
}

unfoldable pub hub_class : {D : Type 0} → Hub.Downstream D → Function (Hub.Hub D)
hub_class downstream = record {
  speed = λ h. high;
  device_descriptor = λ h. hub_device;
  configuration = λ h. hub_configuration;
  strings = λ h. [];
  control = λ h setup payload now. Hub.control downstream h setup;
  input = λ h ep max now. Hub.input h ep max;
  output = λ h ep payload. Hub.output h ep payload;
  reset = λ h. Hub.reset downstream h;
}

-- A device on a port of the hub.
unfoldable pub downstream : {A : Type 0} → Function A → Hub.Downstream (Device.Device A)
downstream class = record { speed = λ d. Device.speed class d; reset = λ d. Device.reset class d }
