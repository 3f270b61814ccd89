-- ===== src/Itu.antt =====
-- crates/ue2-core/src/devices/itu.rs: timers, buttons, capabilities, the register view of the
-- interrupt core, and the console UART.
pub mod Timer
mod Tests
use ue2_c64u_emulator.Base.{
  ℕ, ◌+◌, ◌-◌, ◌*◌, ◌/◌, ◌%◌, ◌^◌, bit_and, bit_or, Bool, true, false, not, ◌&&◌, ◌||◌, ◌==◌,
  if◌then◌else◌, ltb, leb, from_bool, has, u8, u32, not8, Option, none, some, List, [], ◌∷◌, ◌++◌,
  min,
}
use ue2_c64u_emulator.Irq.{IrqState, pulse, active, high_active, clear}

-- The ESP32's buttons of crates/ue2-core/src/devices/wifi.rs, held or not at a clock.
pub record EspButtons : Type 0 where
  pub freeze : ℕ → Bool
  pub menu : ℕ → Bool

pub record Itu : Type 0 where
  pub capabilities : ℕ
  pub menu_button : Bool
  pub esp : Option EspButtons
  pub timer : ℕ
  pub timer_written : ℕ
  pub irq_timer_en : Bool
  pub irq_timer_select : Bool
  pub irq_timer_val : ℕ
  pub irq_timer_frozen : ℕ
  pub next_pulse : Option ℕ
  pub synced : ℕ

-- `IoCtx`: the clock of the access, the interrupt core, and the console's bytes, oldest first.
pub record Ctx : Type 0 where
  pub now : ℕ
  pub irq : IrqState
  pub console : List ℕ

-- `TIMER_STEP`: 5 microseconds.
abbrev pub timer_step : ℕ
timer_step = 500

abbrev pub irq_timer_val_reset : ℕ
irq_timer_val_reset = 0x8000

abbrev pub early_trap_marker : ℕ
early_trap_marker = 0x49

-- "\n[early trap]\n"
abbrev pub early_trap_text : List ℕ
early_trap_text = 10 ∷ 91 ∷ 101 ∷ 97 ∷ 114 ∷ 108 ∷ 121 ∷ 32 ∷ 116 ∷ 114 ∷ 97 ∷ 112 ∷ 93 ∷ 10 ∷ []

unfoldable pub new : ℕ → Itu
new capabilities = record {
  capabilities = capabilities;
  menu_button = false;
  esp = none;
  timer = 0;
  timer_written = 0;
  irq_timer_en = false;
  irq_timer_select = false;
  irq_timer_val = irq_timer_val_reset;
  irq_timer_frozen = 0;
  next_pulse = none;
  synced = 0;
}

unfoldable pub set_menu_button : Itu → Bool → Itu
set_menu_button t pressed = record t { menu_button = pressed }

-- `u8::try_from(steps).unwrap_or(u8::MAX)` is the smaller of `steps` and 255.
unfoldable pub timer_value : Itu → ℕ → ℕ
timer_value t now = t.timer - min ((now - t.timer_written) / timer_step) 255

unfoldable pub irq_timer_reload : Itu → ℕ
irq_timer_reload t = bit_or (t.irq_timer_val * 256) 0xff

unfoldable pub irq_timer_cnt : Itu → ℕ → ℕ
irq_timer_cnt t now = elim (t.next_pulse) [ some p ↦ u32 (p - 1 - now) | none ↦ t.irq_timer_frozen ]

unfoldable pub write_irq_timer_en : Itu → ℕ → ℕ → Itu
write_irq_timer_en t val now =
    let cnt = if t.irq_timer_en then irq_timer_cnt t now else irq_timer_reload t in
    let en = has val 1 in
    let select = has val 2 in
    record t {
      irq_timer_en = en;
      irq_timer_select = select;
      irq_timer_frozen = cnt;
      next_pulse = if en && not select then some (now + cnt + 1) else none;
    }

-- The next pulse after `now`, of a counter whose next pulse was `p`.
unfoldable pub reschedule : ℕ → ℕ → ℕ → ℕ
reschedule period p now = now + period - (now - p) % period

unfoldable pub sync : Itu → ℕ → IrqState → Itu × IrqState
sync t now irq =
    let s = record t { synced = now } in
    elim (t.next_pulse) [
      | none ↦ (s, irq)
      | some p ↦
          if leb p now
          then (
            record s { next_pulse = some (reschedule (irq_timer_reload t + 1) p now) },
            pulse irq 0,
          )
          else (s, irq)
    ]

-- Byte `i` of the word, the highest first.
unfoldable pub to_be_byte : ℕ → ℕ → ℕ
to_be_byte w i = w / 2 ^ (24 - 8 * i) % 256

unfoldable pub buttons : Itu → ℕ → ℕ
buttons t now = elim (t.esp) [
  | some e ↦ bit_or (from_bool (e.freeze now) * 128) (from_bool (e.menu now) * 64)
  | none ↦ from_bool t.menu_button * 64
]

-- The registers that do not read the interrupt core.
unfoldable pub get : Itu → ℕ → ℕ → ℕ
get t off now =
    let o = off % 64 in
    if o == 0x06
    then timer_value t now
    else if o == 0x07
    then bit_or (from_bool t.irq_timer_en) (from_bool t.irq_timer_select * 2)
    else if o == 0x08
    then u8 (irq_timer_cnt t now / 256)
    else if o == 0x09
    then u8 (irq_timer_cnt t now)
    else if o == 0x0a
    then buttons t now
    else if o == 0x0b
    then 0x25
    else if leb 0x0c o && leb o 0x0f
    then to_be_byte t.capabilities (o - 0x0c)
    else if leb 0x10 o && leb o 0x1f && o % 4 == 2
    then 0x40
    else if o == 0x22
    then u8 (now / 100_000 / 256)
    else if o == 0x23
    then u8 (now / 100_000)
    else 0

unfoldable pub read8 : Itu → ℕ → Ctx → ℕ × Itu × Ctx
read8 t off ctx =
    let (t', irq) = sync t ctx.now ctx.irq in
    let ctx' = record ctx { irq = irq } in
    let o = off % 64 in
    let v =
      if o == 0x00
      then from_bool irq.global_en
      else if o == 0x01
      then irq.mask
      else if o == 0x03
      then irq.edge_mask
      else if o == 0x05
      then active irq
      else if o == 0x27
      then irq.high_en
      else if o == 0x28
      then high_active irq
      else get t' o ctx.now in
    (v, t', ctx')

unfoldable pub peek8 : Itu → ℕ → ℕ
peek8 t off = get t off t.synced

-- The registers of a write, once the timer is up to date.
unfoldable pub write_register : Itu → ℕ → ℕ → Ctx → Itu × Ctx
write_register t o val ctx =
    let irq = ctx.irq in
    if o == 0x00
    then (t, record ctx { irq = record irq { global_en = has val 1 } })
    else if o == 0x01
    then (t, record ctx { irq = record irq { mask = bit_or irq.mask val } })
    else if o == 0x02
    then (t, record ctx { irq = record irq { mask = bit_and irq.mask (not8 val) } })
    else if o == 0x04
    then (t, record ctx { irq = clear irq val })
    else if o == 0x06
    then (record t { timer = val; timer_written = ctx.now }, ctx)
    else if o == 0x07
    then (write_irq_timer_en t val ctx.now, ctx)
    else if o == 0x08
    then (record t { irq_timer_val = bit_or (bit_and t.irq_timer_val 0x00ff) (val * 256) }, ctx)
    else if o == 0x09
    then (record t { irq_timer_val = bit_or (bit_and t.irq_timer_val 0xff00) val }, ctx)
    else if o == 0x1f && val == early_trap_marker
    then (t, record ctx { console = ctx.console ++ early_trap_text })
    else if leb 0x10 o && leb o 0x1f && o % 4 == 0
    then (t, record ctx { console = ctx.console ++ (val ∷ []) })
    else if o == 0x27
    then (t, record ctx { irq = record irq { high_en = val } })
    else (t, ctx)

unfoldable pub write8 : Itu → ℕ → ℕ → Ctx → Itu × Ctx
write8 t off val ctx =
    let (t', irq) = sync t ctx.now ctx.irq in
    write_register t' (off % 64) val (record ctx { irq = irq })

unfoldable pub next_event : Itu → Option ℕ
next_event t = t.next_pulse

unfoldable pub tick : Itu → Ctx → Itu × Ctx
tick t ctx = let (t', irq) = sync t ctx.now ctx.irq in (t', record ctx { irq = irq })
