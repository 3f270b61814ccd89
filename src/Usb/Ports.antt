-- ===== src/Usb/Ports.antt =====
-- The hub's ports over any run of requests and of plugging: a port that passes traffic has power and a
-- device that is plugged in.
use mathlib.Core.Path.{subst}
use ue2_c64u_emulator.Base.{
  ℕ, zero, suc, ◌/◌, ◌≡◌, refl, sym, ap, ◌∙◌, arith, Bool, true, false, not, ◌&&◌, ◌||◌, ◌==◌,
  bool_eq, leb, if◌then◌else◌, if_elim, if_cases, Option, some, none, List, [], ◌∷◌, length, map,
}
use ue2_c64u_emulator.Usb.Function.{Setup}
use ue2_c64u_emulator.Usb.Hub.{
  Hub, Port, Downstream, is_some, port_at, put_port, set_port, with_ports, clear_feature,
  set_feature, take, insert_unplugged, insert, plug, set_connected, control, reset, reset_port,
  new_ports,
}

-- A port that is enabled has power and a device that is plugged in.
abbrev pub is_ok : {D : Type 0} → Port D → Bool
is_ok p = not p.enabled || (p.powered && p.connected && is_some p.device)

abbrev pub AreOk : {D : Type 0} → List (Port D) → Type 0
AreOk [] = Unit {0}
AreOk (p ∷ ps) = (is_ok p ≡ true) × AreOk ps

-- Requests of the host and what happens to the devices. A device is unplugged before it is taken off.
pub data Event (D : Type 0) : Type 0 where
  request : Setup → Event D
  add : ℕ → D → Event D
  add_unplugged : ℕ → D → Event D
  connect : ℕ → Bool → Event D
  remove : ℕ → Event D
  bus_reset : Event D

pub record IsSound {D : Type 0} (h : Hub D) : Type 0 where
  pub count : length h.ports ≡ 3
  pub ports : AreOk h.ports

is_false : (b : Bool) → bool_eq b false ≡ true → b ≡ false
is_false b e = ground arith

some_ne_none : {A : Type 0} {a : A} → none ≡ some a → ⊥
some_ne_none e = cc e

module _ {D : Type 0} where
  put_port-AreOk :
      (ps : List (Port D)) (n : ℕ) (q : Port D)
      → AreOk ps
      → is_ok q ≡ true
      → AreOk (put_port ps n q)
  put_port-AreOk [] n q h k = tt
  put_port-AreOk (p ∷ ps) zero q h k = h
  put_port-AreOk (p ∷ ps) (suc zero) q h k = (k, h.1)
  put_port-AreOk (p ∷ ps) (suc (suc n)) q h k = (h.0, put_port-AreOk ps (suc n) q h.1 k)

  length-put_port : (ps : List (Port D)) (n : ℕ) (q : Port D) → length (put_port ps n q) ≡ length ps
  length-put_port [] n q = refl
  length-put_port (p ∷ ps) zero q = refl
  length-put_port (p ∷ ps) (suc zero) q = refl
  length-put_port (p ∷ ps) (suc (suc n)) q = ap suc (length-put_port ps (suc n) q)

  -- What is at a port of a sound hub.
  abbrev OkAt : Option (Port D) → Type 0
  OkAt none = Unit {0}
  OkAt (some p) = is_ok p ≡ true

  port_at-AreOk : (ps : List (Port D)) (n : ℕ) → AreOk ps → OkAt (port_at ps n)
  port_at-AreOk [] n h = tt
  port_at-AreOk (p ∷ ps) zero h = tt
  port_at-AreOk (p ∷ ps) (suc zero) h = h.0
  port_at-AreOk (p ∷ ps) (suc (suc n)) h = port_at-AreOk ps (suc n) h.1

  set_port-IsSound :
      (h : Hub D) (n : ℕ) (q : Port D) → IsSound h → is_ok q ≡ true → IsSound (set_port h n q)
  set_port-IsSound h n q v k = record {
    count = length-put_port h.ports n q ∙ v.count;
    ports = put_port-AreOk h.ports n q v.ports k;
  }

  -- What holds without a port and for each port in order holds of what is done with a port of the hub.
  option_ok {ℓ} :
      {B : Type 0} (P : B → Type ℓ) (o : Option (Port D)) (z : B) (k : Port D → B)
      → OkAt o
      → P z
      → ((p : Port D) → is_ok p ≡ true → P (k p))
      → P (elim o [ none ↦ z | some p ↦ k p ])
  option_ok P none z k h hz hk = hz
  option_ok P (some p) z k h hz hk = hk p h

  clear_feature-is_ok : (p : Port D) (f : ℕ) → is_ok p ≡ true → is_ok (clear_feature p f).1 ≡ true
  unfolding clear_feature
  clear_feature-is_ok p f h = ground (arith, h)

  plug-is_ok : (p : Port D) (c : Bool) → is_ok p ≡ true → is_ok (plug p c) ≡ true
  unfolding plug
  plug-is_ok p c h = ground (arith, h)

  new_ports-AreOk : (n : ℕ) (ds : List (Option D)) → AreOk (new_ports n ds)
  new_ports-AreOk zero ds = tt
  new_ports-AreOk (suc n) [] = (refl, new_ports-AreOk n [])
  new_ports-AreOk (suc n) (d ∷ ds) = (refl, new_ports-AreOk n ds)

  length-new_ports : (n : ℕ) (ds : List (Option D)) → length (new_ports n ds) ≡ n
  length-new_ports zero ds = refl
  length-new_ports (suc n) [] = ap suc (length-new_ports n [])
  length-new_ports (suc n) (d ∷ ds) = ap suc (length-new_ports n ds)

  abbrev OnSome : Option (Hub D) → Type 0
  OnSome none = Unit {0}
  OnSome (some h) = IsSound h

  abbrev or_same : Hub D → Option (Hub D) → Hub D
  or_same h none = h
  or_same h (some t) = t

  port_at-put_port :
      (ps : List (Port D)) (n : ℕ) (p q : Port D)
      → port_at ps n ≡ some p
      → port_at (put_port ps n q) n ≡ some q
  port_at-put_port [] n p q e = absurd (some_ne_none e)
  port_at-put_port (r ∷ ps) zero p q e = absurd (some_ne_none e)
  port_at-put_port (r ∷ ps) (suc zero) p q e = refl
  port_at-put_port (r ∷ ps) (suc (suc n)) p q e = port_at-put_port ps (suc n) p q e

  -- What stands at a port that has just been unplugged.
  abbrev OffAt : Option (Port D) → Type 0
  OffAt none = Unit {0}
  OffAt (some p) = p.connected ≡ false

  unplugged : (h : Hub D) (n : ℕ) → OffAt (port_at (set_connected h n false).1.ports n)
  unfolding set_connected plug
  unplugged h n = at_port (port_at h.ports n) refl
    where
      at_port :
          (o : Option (Port D))
          → port_at h.ports n ≡ o
          → OffAt (
              port_at
                (elim o as (λ x. Bool × Hub D) [
                  | some p ↦
                      if bool_eq p.connected false
                      then (false, h)
                      else (true, set_port h n (plug p false))
                  | none ↦ (false, h)
                ]).1.ports
                n)
      at_port none e = subst OffAt (sym e) tt
      at_port (some p) e =
          if_cases (λ (r : Bool × Hub D). OffAt (port_at r.1.ports n)) (bool_eq p.connected false) _
            _ (λ off. subst OffAt (sym e) (is_false p.connected off))
            (λ on. subst OffAt (sym (port_at-put_port h.ports n p (plug p false) e)) refl)

  option_off {ℓ} :
      {B : Type 0} (P : B → Type ℓ) (o : Option (Port D)) (z : B) (k : Port D → B)
      → OkAt o
      → OffAt o
      → P z
      → ((p : Port D) → is_ok p ≡ true → p.connected ≡ false → P (k p))
      → P (elim o [ none ↦ z | some p ↦ k p ])
  option_off P none z k h off hz hk = hz
  option_off P (some p) z k h off hz hk = hk p h off

module _ {D : Type 0} (downstream : Downstream D) where
  set_feature-is_ok :
      (p : Port D) (f : ℕ) → is_ok p ≡ true → is_ok (set_feature downstream p f).1 ≡ true
  unfolding set_feature
  set_feature-is_ok p f h = ground (arith, h)

  unfoldable pub handle : Hub D → Event D → Hub D
  handle h (request s) = (control downstream h s).1
  handle h (add n d) = or_same h (insert h n d)
  handle h (add_unplugged n d) = or_same h (insert_unplugged h n d)
  handle h (connect n c) = (set_connected h n c).1
  handle h (remove n) = (take (set_connected h n false).1 n).1
  handle h bus_reset = reset downstream h

  unfoldable pub handle_all : Hub D → List (Event D) → Hub D
  handle_all h [] = h
  handle_all h (e ∷ es) = handle_all (handle h e) es

  abbrev Sound : Option (List ℕ) × Hub D → Type 0
  Sound r = IsSound r.1

  control-IsSound : (h : Hub D) (s : Setup) → IsSound h → Sound (control downstream h s)
  unfolding control
  control-IsSound h s v =
      let n = s.index in
      if_elim Sound ((s.request_type == 0xa0) && (s.request == 6) && (s.value / 256 == 0x29)) _ _ v
        (if_elim Sound ((s.request_type == 0xa0) && (s.request == 0)) _ _ v (
          if_elim Sound ((s.request_type == 0xa3) && (s.request == 0)) _ _ v (
            if_elim Sound ((s.request_type == 0x23) && (s.request == 3)) _ _
              (option_ok Sound (port_at h.ports n) _ _ (port_at-AreOk h.ports n v.ports) v
                (λ p k. set_port-IsSound h n _ v (set_feature-is_ok p s.value k)))
              (if_elim Sound ((s.request_type == 0x23) && (s.request == 1)) _ _
                (option_ok Sound (port_at h.ports n) _ _ (port_at-AreOk h.ports n v.ports) v
                  (λ p k. set_port-IsSound h n _ v (clear_feature-is_ok p s.value k)))
                v))))

  set_connected-IsSound :
      (h : Hub D) (n : ℕ) (c : Bool) → IsSound h → IsSound (set_connected h n c).1
  unfolding set_connected
  set_connected-IsSound h n c v =
      option_ok (λ (r : Bool × Hub D). IsSound r.1) (port_at h.ports n) _ _
        (port_at-AreOk h.ports n v.ports) v
        (λ p k.
          if_elim (λ (r : Bool × Hub D). IsSound r.1) (bool_eq p.connected c) _ _ v
            (set_port-IsSound h n (plug p c) v (plug-is_ok p c k)))

  insert-IsSound : (h : Hub D) (n : ℕ) (d : D) → IsSound h → IsSound (or_same h (insert h n d))
  unfolding insert
  insert-IsSound h n d v =
      option_ok (λ (o : Option (Hub D)). IsSound (or_same h o)) (port_at h.ports n) _ _
        (port_at-AreOk h.ports n v.ports) v
        (λ p k.
          if_cases (λ (o : Option (Hub D)). IsSound (or_same h o)) (is_some p.device) _ _ (λ e. v)
            (λ e. set_port-IsSound h n _ v (ground (arith, k, e))))

  insert_unplugged-IsSound :
      (h : Hub D) (n : ℕ) (d : D) → IsSound h → IsSound (or_same h (insert_unplugged h n d))
  unfolding insert_unplugged
  insert_unplugged-IsSound h n d v =
      option_ok (λ (o : Option (Hub D)). IsSound (or_same h o)) (port_at h.ports n) _ _
        (port_at-AreOk h.ports n v.ports) v
        (λ p k.
          if_cases (λ (o : Option (Hub D)). IsSound (or_same h o)) (is_some p.device) _ _ (λ e. v)
            (λ e. set_port-IsSound h n _ v (ground (arith, k, e))))

  remove-IsSound : (h : Hub D) (n : ℕ) → IsSound h → IsSound (take (set_connected h n false).1 n).1
  unfolding take
  remove-IsSound h n v =
      let t = (set_connected h n false).1 in
      let u = set_connected-IsSound h n false v in
      option_off (λ (r : Option D × Hub D). IsSound r.1) (port_at t.ports n) _ _
        (port_at-AreOk t.ports n u.ports) (unplugged h n) u
        (λ p k off. set_port-IsSound t n _ u (ground (arith, k, off)))

  reset-AreOk : (ps : List (Port D)) → AreOk (map (reset_port downstream) ps)
  reset-AreOk [] = tt
  reset-AreOk (p ∷ ps) = (refl, reset-AreOk ps)

  length-reset : (ps : List (Port D)) → length (map (reset_port downstream) ps) ≡ length ps
  length-reset [] = refl
  length-reset (p ∷ ps) = ap suc (length-reset ps)

  handle-IsSound : (h : Hub D) (e : Event D) → IsSound h → IsSound (handle h e)
  unfolding handle reset
  handle-IsSound h (request s) v = control-IsSound h s v
  handle-IsSound h (add n d) v = insert-IsSound h n d v
  handle-IsSound h (add_unplugged n d) v = insert_unplugged-IsSound h n d v
  handle-IsSound h (connect n c) v = set_connected-IsSound h n c v
  handle-IsSound h (remove n) v = remove-IsSound h n v
  handle-IsSound h bus_reset v = record {
    count = length-reset h.ports ∙ v.count;
    ports = reset-AreOk h.ports;
  }

  handle_all-IsSound : (h : Hub D) (es : List (Event D)) → IsSound h → IsSound (handle_all h es)
  unfolding handle_all
  handle_all-IsSound h [] v = v
  handle_all-IsSound h (e ∷ es) v = handle_all-IsSound (handle h e) es (handle-IsSound h e v)

  with_ports-IsSound : (ds : List (Option D)) → OnSome (with_ports ds)
  unfolding with_ports
  with_ports-IsSound ds =
      if_elim OnSome (leb (length ds) 3) _ _
        (record { count = length-new_ports 3 ds; ports = new_ports-AreOk 3 ds }) tt

  -- Whatever the host asks of a hub and whatever is put on its ports, plugged, unplugged and taken off, after it is made:
  -- it keeps its three ports, and a port that is enabled has power and a device that is plugged in.
  pub with_ports-runs :
      (ds : List (Option D)) (h : Hub D) (es : List (Event D))
      → with_ports ds ≡ some h
      → (length (handle_all h es).ports ≡ 3) × AreOk (handle_all h es).ports
  with_ports-runs ds h es e =
      let made : OnSome (some h) = subst OnSome e (with_ports-IsSound ds) in
      let v = handle_all-IsSound h es made in (v.count, v.ports)
