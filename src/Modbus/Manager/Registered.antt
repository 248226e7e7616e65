-- ===== src/Modbus/Manager/Registered.antt =====
-- What the manager of pkg/modbus/collector_manager.go finds.
use mbsscaner.Prelude.{
  String, str_eq, ◌≡◌, ◌≢◌, refl, sym, ap, ◌∙◌, Option, none, some, lookup, put, lookup-put_self,
  lookup-put_other, eq_iff, Bool-cases, Bool, true, false, inl, inr,
}
use mbsscaner.Config.Types.{Point}
use mbsscaner.Modbus.Result.{Result, ok, err, panics, M, config_not_found}
use mbsscaner.Modbus.Collect.{PointValue}
use mbsscaner.Modbus.Write.{write_point}
use mbsscaner.Modbus.Single.{read_single_point}
use mbsscaner.Modbus.Client.{Client}
use mbsscaner.Modbus.Value.{Value, Floats}
use mbsscaner.Modbus.Collector.{Collector}
use mbsscaner.Modbus.Manager.{
  Manager, Target, new_manager, register_collector, register_point, with_point, with_collector,
  with_device, find, on_target, value_alone, write_named, get_point_value,
}

abbrev is_some {ℓ} : {A : Type ℓ} → Option A → Bool
is_some none = false
is_some (some x) = true

module _ {Conn : Type 0} where
  -- A name has a point exactly if it has a device.
  abbrev pub IsConsistent : Manager Conn → Type 0
  IsConsistent m =
      (name : String) → is_some (lookup name m.points) ≡ is_some (lookup name m.device_map)

  register_point-IsConsistent :
      (p : Point) (device : String) (m : Manager Conn)
      → IsConsistent m
      → IsConsistent (register_point p device m)
  unfolding register_point
  register_point-IsConsistent p device m h name = elim (Bool-cases (str_eq p.name name)) [
    | inl same ↦
        let e : p.name ≡ name = (eq_iff p.name name).0 same in
        ap is_some
          (ap (λ n. lookup n (put p.name p m.points)) (sym e) ∙ lookup-put_self p.name p m.points)
        ∙ sym (
            ap is_some (
              ap (λ n. lookup n (put p.name device m.device_map)) (sym e)
              ∙ lookup-put_self p.name device m.device_map))
    | inr off ↦
        ap is_some (lookup-put_other p.name name p m.points off)
        ∙ h name
        ∙ sym (ap is_some (lookup-put_other p.name name device m.device_map off))
  ]

  with_point-configured :
      (name device : String) (c : Collector Conn) (found : Option Point)
      → is_some found ≡ true
      → with_point name device c found ≢ err (config_not_found name)
  unfolding with_point
  with_point-configured name device c none h = absurd cc
  with_point-configured name device c (some p) h = λ e. cc

  IsConsistent-configured :
      (m : Manager Conn) (name : String)
      → IsConsistent m
      → find name m ≢ err (config_not_found name)
  unfolding find with_device with_collector
  IsConsistent-configured m name h = go (lookup name m.device_map) (h name)
    where
      then_collector :
          (device : String) (found : Option (Collector Conn))
          → is_some (lookup name m.points) ≡ true
          → with_collector name device found m ≢ err (config_not_found name)
      then_collector device none e = λ f. cc
      then_collector device (some c) e =
          with_point-configured name device c (lookup name m.points) e

      go :
          (d : Option String)
          → is_some (lookup name m.points) ≡ is_some d
          → with_device name d m ≢ err (config_not_found name)
      go none e = λ f. cc
      go (some device) e = then_collector device (lookup device m.collectors) e

module _ (floats : Floats) (client : Client) where
  open client use {Conn}

  -- The managers that the operations lead to, from the one that `InitCollectorManager` makes.
  pub data Reachable : Manager Conn → Type 0 where
    initial : Reachable new_manager
    collector_registered :
        (m : Manager Conn) (device : String) (c : Collector Conn)
        → Reachable m
        → Reachable (register_collector device c m)
    point_registered :
        (m : Manager Conn) (p : Point) (device : String)
        → Reachable m
        → Reachable (register_point p device m)
    written :
        (m : Manager Conn) (name : String) (v : Value)
        → Reachable m
        → Reachable (write_named floats client name v m).1
    read :
        (m : Manager Conn) (name : String)
        → Reachable m
        → Reachable (get_point_value floats client name m).1

  on_target-IsConsistent :
      {A : Type 0} (t : Result (Target Conn)) (act : Point → M (Collector Conn) A)
      (m : Manager Conn)
      → IsConsistent m
      → IsConsistent (on_target t act m).1
  on_target-IsConsistent (ok t) act m h = h
  on_target-IsConsistent (err e) act m h = h
  on_target-IsConsistent panics act m h = h

  value_alone-state :
      (r : Result PointValue × Manager Conn) → IsConsistent r.1 → IsConsistent (value_alone r).1
  value_alone-state (ok v, m) h = h
  value_alone-state (err e, m) h = h
  value_alone-state (panics, m) h = h

  Reachable-IsConsistent : (m : Manager Conn) → Reachable m → IsConsistent m
  unfolding new_manager register_collector write_named get_point_value
  Reachable-IsConsistent _ initial = λ name. refl
  Reachable-IsConsistent _ (collector_registered m device c r) = Reachable-IsConsistent m r
  Reachable-IsConsistent _ (point_registered m p device r) =
      register_point-IsConsistent p device m (Reachable-IsConsistent m r)
  Reachable-IsConsistent _ (written m name v r) =
      on_target-IsConsistent (find name m) (λ p. write_point floats client p v) m
        (Reachable-IsConsistent m r)
  Reachable-IsConsistent _ (read m name r) =
      value_alone-state (on_target (find name m) (λ p. read_single_point floats client p) m) (
        on_target-IsConsistent (find name m) (λ p. read_single_point floats client p) m
          (Reachable-IsConsistent m r))

  -- In every manager that the operations lead to, a name that is mapped to a device has a point:
  -- looking up a name never fails with "point config not found".
  pub Reachable-configured :
      (m : Manager Conn) (name : String) → Reachable m → find name m ≢ err (config_not_found name)
  Reachable-configured m name r = IsConsistent-configured m name (Reachable-IsConsistent m r)

module _ {Conn : Type 0} where
  -- Once the device has a collector, registering a point makes its name lead to that collector and
  -- to this point, whatever was registered under the name before, for this or another device.
  pub find-register_point :
      (p : Point) (device : String) (c : Collector Conn) (m : Manager Conn)
      → lookup device m.collectors ≡ some c
      → find p.name (register_point p device m)
        ≡ ok (record { device = device; collector = c; point = p })
  unfolding find with_device with_collector with_point register_point
  find-register_point p device c m h =
      ap (λ d. with_device p.name d (register_point p device m))
        (lookup-put_self p.name device m.device_map)
      ∙ ap (λ k. with_collector p.name device k (register_point p device m)) h
      ∙ ap (with_point p.name device c) (lookup-put_self p.name p m.points)

  -- Registering a point does not change what any other name leads to.
  pub find-register_point_other :
      (p : Point) (device name : String) (m : Manager Conn)
      → str_eq p.name name ≡ false
      → find name (register_point p device m) ≡ find name m
  unfolding find with_device with_collector register_point
  find-register_point_other p device name m h =
      ap (λ d. with_device name d (register_point p device m))
        (lookup-put_other p.name name device m.device_map h)
      ∙ go (lookup name m.device_map)
    where
      points : lookup name (register_point p device m).points ≡ lookup name m.points
      points = lookup-put_other p.name name p m.points h

      then_collector :
          (d : String) (k : Option (Collector Conn))
          → with_collector name d k (register_point p device m) ≡ with_collector name d k m
      then_collector d none = refl
      then_collector d (some c) = ap (with_point name d c) points

      go :
          (d : Option String)
          → with_device name d (register_point p device m) ≡ with_device name d m
      go none = refl
      go (some d) = then_collector d (lookup d m.collectors)

  abbrev device_of : Result (Target Conn) → Option String
  device_of (ok t) = some t.device
  device_of (err e) = none
  device_of panics = none

  abbrev point_of : Result (Target Conn) → Option Point
  point_of (ok t) = some t.point
  point_of (err e) = none
  point_of panics = none

  -- The entries behind a target.
  find-entries :
      (name : String) (m : Manager Conn) (t : Target Conn)
      → find name m ≡ ok t
      → (lookup name m.device_map ≡ some t.device) × (lookup name m.points ≡ some t.point)
  unfolding find with_device with_collector with_point
  find-entries name m t h = go (lookup name m.device_map) h
    where
      then_point :
          (d : String) (c : Collector Conn) (p : Option Point)
          → with_point name d c p ≡ ok t
          → (some d ≡ some t.device) × (p ≡ some t.point)
      then_point d c none e = cc
      then_point d c (some p) e = (ap device_of e, ap point_of e)

      then_collector :
          (d : String) (k : Option (Collector Conn))
          → with_collector name d k m ≡ ok t
          → (some d ≡ some t.device) × (lookup name m.points ≡ some t.point)
      then_collector d none e = cc
      then_collector d (some c) e = then_point d c (lookup name m.points) e

      go :
          (d : Option String)
          → with_device name d m ≡ ok t
          → (d ≡ some t.device) × (lookup name m.points ≡ some t.point)
      go none e = cc
      go (some d) e = then_collector d (lookup d m.collectors) e

  -- Storing a collector of the target's device replaces the target's collector and nothing else.
  pub find-register_collector :
      (name : String) (m : Manager Conn) (t : Target Conn) (c : Collector Conn)
      → find name m ≡ ok t
      → find name (register_collector t.device c m) ≡ ok (record t { collector = c })
  unfolding find with_device with_collector with_point register_collector
  find-register_collector name m t c h =
      let (d, p) = find-entries name m t h in
      ap (λ k. with_device name k (register_collector t.device c m)) d
      ∙ ap (λ k. with_collector name t.device k (register_collector t.device c m))
          (lookup-put_self t.device c m.collectors)
      ∙ ap (with_point name t.device c) p
