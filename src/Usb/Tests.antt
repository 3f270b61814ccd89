-- ===== src/Usb/Tests.antt =====
-- A medium of eight blocks in which the mass-storage device's properties are tried.
use ue2_c64u_emulator.Base.{
  ℕ, zero, suc, ◌+◌, ◌*◌, ◌<◌, ◌≡◌, refl, ap, arith, true, false, ◌==◌, ltb, if◌then◌else◌,
  eq_false_of_ne, eq_true_of_eq, Option, some, none, List, [], ◌∷◌, ◌++◌, length, replicate,
}
use ue2_c64u_emulator.Usb.Function.{packet}
use ue2_c64u_emulator.Usb.Storage.{
  Storage, BlockBackend, command, read_10, Cbw, scsi, no_sense, lba_out_of_range, Outcome, failed,
}
use ue2_c64u_emulator.Usb.Transfers.{command_block, command_packet, parse-command_packet, joined}
use ue2_c64u_emulator.Usb.Blocks.{read_back, after_write, read_back-after_write}
use ue2_c64u_emulator.Usb.Sense.{transfer_in, sense_cbw, sense_lem, scsi-within, other}
use ue2_c64u_emulator.Base.{has}
use ue2_c64u_emulator.Usb.Function.{Reply, ack, parse}
use ue2_c64u_emulator.Usb.Device
use ue2_c64u_emulator.Usb.Device.{Device, idle, setup_token, request, descriptor}
use ue2_c64u_emulator.Usb.Control.{read_in, control_read}
use ue2_c64u_emulator.Usb.Stages.{
  InBounds, handle_all, handle_all-InBounds, setup, ask, bus_reset, set_address_lem,
}
use ue2_c64u_emulator.Usb.Hub.{Hub, new_port, with_ports}
use ue2_c64u_emulator.Usb.Ports
use ue2_c64u_emulator.Usb.Ports.{AreOk, with_ports-runs}
use ue2_c64u_emulator.Usb.Keyboard
use ue2_c64u_emulator.Usb.Keyboard.{Keyboard, no_keys, contains, changed}
use ue2_c64u_emulator.Usb.Classes.{keyboard_class, keyboard_device, downstream}
use ue2_c64u_emulator.Usb.Keys.{key_all, held_lem}
use ue2_c64u_emulator.Usb.Reports.{polls, polls-key_all}

abbrev Disk : Type 0
Disk = ℕ → ℕ

abbrev store : Disk → ℕ → List ℕ → Disk
store m start [] = m
store m start (x ∷ xs) = λ i. if i == start then x else store m (start + 1) xs i

abbrev load_bytes : Disk → ℕ → ℕ → List ℕ
load_bytes m start zero = []
load_bytes m start (suc n) = m start ∷ load_bytes m (start + 1) n

abbrev medium : BlockBackend Disk
medium = record {
  blocks = λ m. 8;
  read_only = λ m. false;
  read_blocks = λ m lba len. (some (load_bytes m (lba * 512) len), m);
  write_blocks = λ m lba d. (true, store m (lba * 512) d);
}

-- What is stored before a run does not show in it.
load_bytes-other :
    (n : ℕ) (m : Disk) (i x start : ℕ)
    → i < start
    → load_bytes (λ k. if k == i then x else m k) start n ≡ load_bytes m start n
load_bytes-other zero m i x start h = refl
load_bytes-other (suc n) m i x start h =
    rw (eq_false_of_ne start i (omega arith), load_bytes-other n m i x (start + 1) (omega arith))
      refl

load_bytes-store :
    (d : List ℕ) (m : Disk) (start : ℕ) → load_bytes (store m start d) start (length d) ≡ d
load_bytes-store [] m start = refl
load_bytes-store (x ∷ xs) m start =
    rw
      (
        eq_true_of_eq start start refl,
        load_bytes-other (length xs) (store m (start + 1) xs) start x (start + 1) (omega arith),
        load_bytes-store xs m (start + 1),
      )
      refl

abbrev stick : Storage Disk
stick = record { backend = λ i. 0; phase = command; sense = no_sense }

abbrev first_packets : List (List ℕ)
first_packets = replicate 64 1 ∷ replicate 200 2 ∷ []

abbrev last_packet : List ℕ
last_packet = replicate 248 3

-- A block that comes in three packets.
read_back-after_write_example :
    read_back medium (after_write medium stick 7 5 1 first_packets last_packet) 7 5 1
    ≡ joined first_packets ++ last_packet
read_back-after_write_example =
    read_back-after_write medium (λ m lba d ok. ap some (load_bytes-store d m (lba * 512)))
      (λ m lba d. refl) stick 7 5 1 first_packets last_packet refl (omega arith) (omega arith)
      (omega arith) (omega arith) refl refl (omega arith) refl

-- A read of three blocks from block 6 on of eight.
abbrev read_past : Cbw
read_past = record { tag = 9; length = 1536; data_in = true; cb = command_block 0x28 6 3 }

sense_lem_example :
    let r = transfer_in medium stick (command_packet read_past) 1536 in
    let q = transfer_in medium r.1 (command_packet (sense_cbw 10)) 18 in
    (r.0 ≡ (
      replicate 1536 0,
      packet (0x55 ∷ 0x53 ∷ 0x42 ∷ 0x53 ∷ 9 ∷ 0 ∷ 0 ∷ 0 ∷ 0 ∷ 6 ∷ 0 ∷ 0 ∷ 1 ∷ []),
    ))
    × (q.0 ≡ (
      0x70 ∷ 0 ∷ 0x05 ∷ 0 ∷ 0 ∷ 0 ∷ 0 ∷ 10 ∷ 0 ∷ 0 ∷ 0 ∷ 0 ∷ 0x21 ∷ 0 ∷ 0 ∷ 0 ∷ 0 ∷ 0 ∷ [],
      packet (0x55 ∷ 0x53 ∷ 0x42 ∷ 0x53 ∷ 10 ∷ 0 ∷ 0 ∷ 0 ∷ 0 ∷ 0 ∷ 0 ∷ 0 ∷ 0 ∷ []),
    ))
    × (q.1 ≡ stick)
sense_lem_example =
    sense_lem medium stick stick (command_packet read_past) read_past lba_out_of_range 10 refl
      (parse-command_packet 9 1536 0x28 6 3 true (omega arith) (omega arith)) refl (omega arith)
      (omega arith) past
  where
    past :
        ◌≡◌ {A = Outcome × Storage Disk}
          (scsi medium stick read_past.cb [])
          (failed lba_out_of_range, stick)
    past = unfold scsi in unfold read_10 in refl

-- A medium that answers no read past its end.
abbrev guarded : Disk → ℕ → ℕ → Option (List ℕ) × Disk
guarded m lba len =
    if ltb 4096 (lba * 512 + len) then (none, m) else (some (load_bytes m (lba * 512) len), m)

scsi-within_example :
    ◌≡◌ {A = Outcome × Storage Disk}
      (scsi medium stick (command_block 0x28 7 1) [])
      (scsi (other medium guarded medium.write_blocks) stick (command_block 0x28 7 1) [])
scsi-within_example =
    scsi-within medium guarded medium.write_blocks (λ m lba len h. ground arith)
      (λ m lba d w h. refl) stick (command_block 0x28 7 1) []

abbrev no_input : Keyboard
no_input = record { report = no_keys; queue = []; idle = 0; last_sent = 0 }

abbrev keyboard_at : ℕ → Device Keyboard
keyboard_at address = record {
  address = address;
  configuration = 1;
  ep0 = idle;
  function = no_input;
}

-- GET_DESCRIPTOR for the 18 bytes of the device descriptor, read in packets of 8.
abbrev ask_descriptor : List ℕ
ask_descriptor = 0x80 ∷ 0x06 ∷ 0x00 ∷ 0x01 ∷ 0 ∷ 0 ∷ 18 ∷ 0 ∷ []

control_read_example :
    let t = setup_token keyboard_class (keyboard_at 3) ask_descriptor 0 in
    let r = read_in keyboard_class 19 8 t.1 0 in
    (t.0 ≡ ack)
    × (r.0 ≡ keyboard_device)
    × ◌≡◌ {A = Reply × Device Keyboard} (Device.output keyboard_class r.1 0 []) (ack, keyboard_at 3)
unfolding parse request descriptor keyboard_class
control_read_example =
    control_read keyboard_class (keyboard_at 3) ask_descriptor keyboard_device 8 0 refl
      (unfold has in refl) refl (omega arith)

-- A reset in the middle of an answer.
handle_all-InBounds_example : InBounds (
    handle_all keyboard_class
      (keyboard_at 3)
      (setup ask_descriptor 0 ∷ ask 0 8 1 ∷ ask 0 8 2 ∷ bus_reset ∷ []))
handle_all-InBounds_example =
    handle_all-InBounds keyboard_class (keyboard_at 3)
      (setup ask_descriptor 0 ∷ ask 0 8 1 ∷ ask 0 8 2 ∷ bus_reset ∷ [])
      (record { stage = tt; address = omega arith })

abbrev ask_address : List ℕ
ask_address = 0x00 ∷ 0x05 ∷ 0x07 ∷ 0x00 ∷ 0 ∷ 0 ∷ 0 ∷ 0 ∷ []

-- The host polls endpoint 1 between the SETUP and its status stage.
set_address_lem_example :
    let r = setup_token keyboard_class (keyboard_at 0) ask_address 0 in
    let t = handle_all keyboard_class r.1 (ask 1 8 1 ∷ []) in
    (r ≡ (ack, record (keyboard_at 0) { ep0 = r.1.ep0 }))
    × (t.address ≡ 0)
    × ◌≡◌ {A = Reply × Device Keyboard}
        (Device.input keyboard_class t 0 64 2)
        (packet [], record t { address = 7; ep0 = idle })
unfolding parse
set_address_lem_example =
    set_address_lem keyboard_class (keyboard_at 0) ask_address (ask 1 8 1 ∷ []) 0 64 2 refl refl
      refl refl (omega arith, tt)

abbrev two_keyboards : List (Option (Device Keyboard))
two_keyboards = some (keyboard_at 0) ∷ none ∷ some (keyboard_at 0) ∷ []

abbrev made : Hub (Device Keyboard)
made = record {
  ports = new_port (some (keyboard_at 0)) ∷ new_port none ∷ new_port (some (keyboard_at 0)) ∷ [];
}

-- Power and reset of port 1, whose device is then taken off.
abbrev port_events : List (Ports.Event (Device Keyboard))
port_events =
    Ports.request record { request_type = 0x23; request = 3; value = 8; index = 1; length = 0 }
    ∷ Ports.request record { request_type = 0x23; request = 3; value = 4; index = 1; length = 0 }
    ∷ Ports.remove 1
    ∷ []

with_ports-runs_example :
    let h = Ports.handle_all (downstream keyboard_class) made port_events in
    (length h.ports ≡ 3) × AreOk h.ports
with_ports-runs_example =
    with_ports-runs (downstream keyboard_class) two_keyboards made port_events
      (unfold with_ports in refl)

-- A, B and C are pressed and B is released; B no longer shows, C does.
held_lem_example :
    let k = key_all Keyboard.new ((4, true) ∷ (5, true) ∷ (6, true) ∷ []) in
    let t = Keyboard.key k 5 false in
    (contains t.report.keys 6 ≡ contains k.report.keys 6)
    × (t.report.modifiers ≡ k.report.modifiers)
held_lem_example =
    held_lem ((4, true) ∷ (5, true) ∷ (6, true) ∷ []) 5 6 false (omega arith) (omega arith) refl

-- A short tap of a key with the shift key held.
polls-key_all_example :
    polls (key_all no_input ((0xe1, true) ∷ (4, true) ∷ (4, false) ∷ [])) 8 (10 ∷ 20 ∷ 30 ∷ [])
    ≡ packet (2 ∷ 0 ∷ 0 ∷ 0 ∷ 0 ∷ 0 ∷ 0 ∷ 0 ∷ [])
      ∷ packet (2 ∷ 0 ∷ 4 ∷ 0 ∷ 0 ∷ 0 ∷ 0 ∷ 0 ∷ [])
      ∷ packet (2 ∷ 0 ∷ 0 ∷ 0 ∷ 0 ∷ 0 ∷ 0 ∷ 0 ∷ [])
      ∷ []
unfolding changed
polls-key_all_example =
    polls-key_all no_input ((0xe1, true) ∷ (4, true) ∷ (4, false) ∷ []) 8 (10 ∷ 20 ∷ 30 ∷ []) refl
      (omega arith) refl
