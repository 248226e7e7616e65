-- ===== src/Service/System/Names.antt =====
-- Two states of the manager (pkg/modbus/collector_manager.go) that differ in connections only.
use mbsscaner.Prelude.{
  ◌≡◌, refl, sym, ◌∙◌, subst, String, str_eq, eq_iff, List, Option, none, some, lookup, put,
  lookup-put_self, lookup-put_other, Bool-cases, inl, inr,
}
use mbsscaner.Config.Types.{Point}
use mbsscaner.Modbus.Result.{Result, ok, err, panics}
use mbsscaner.Modbus.Collector.{Collector}
use mbsscaner.Modbus.Manager.{
  Manager, Target, find, with_device, with_collector, with_point, on_target,
}

module _ {Conn : Type 0} where
  -- The same collector, but for its connection: neither is there, or both with one device.
  abbrev pub SameDevice : Option (Collector Conn) → Option (Collector Conn) → Type 0
  SameDevice none none = Unit
  SameDevice none (some d) = ⊥
  SameDevice (some c) none = ⊥
  SameDevice (some c) (some d) = d.device ≡ c.device

  -- The same names, points and devices.
  abbrev pub SameNames : Manager Conn → Manager Conn → Type 0
  SameNames m m' =
      (m'.points ≡ m.points)
      × (m'.device_map ≡ m.device_map)
      × ((name : String) → SameDevice (lookup name m.collectors) (lookup name m'.collectors))

  pub SameDevice-refl : (o : Option (Collector Conn)) → SameDevice o o
  SameDevice-refl none = tt
  SameDevice-refl (some c) = refl

  pub SameDevice-trans :
      (o p q : Option (Collector Conn)) → SameDevice o p → SameDevice p q → SameDevice o q
  SameDevice-trans none none none h k = tt
  SameDevice-trans none none (some e) h k = k
  SameDevice-trans none (some d) q h k = elim h [ ]
  SameDevice-trans (some c) none q h k = elim h [ ]
  SameDevice-trans (some c) (some d) none h k = k
  SameDevice-trans (some c) (some d) (some e) h k = k ∙ h

  -- Storing a collector back after an operation that kept its device.
  pub put-SameDevice :
      (device : String) (c d : Collector Conn) (cs : List (String × Collector Conn))
      → lookup device cs ≡ some c
      → d.device ≡ c.device
      → (name : String) → SameDevice (lookup name cs) (lookup name (put device d cs))
  put-SameDevice device c d cs there same name = elim (Bool-cases (str_eq device name)) [
    | inl same_name ↦
        let e : device ≡ name = (eq_iff device name).0 same_name in
        subst (λ n. SameDevice (lookup n cs) (lookup n (put device d cs))) e
          (subst (λ o. SameDevice o (lookup device (put device d cs))) (sym there)
            (subst (λ o. SameDevice (some c) o) (sym (lookup-put_self device d cs)) same))
    | inr off ↦
        subst (SameDevice (lookup name cs)) (sym (lookup-put_other device name d cs off))
          (SameDevice-refl (lookup name cs))
  ]

  -- The collector of a target is the one that stands under its device.
  unfoldable pub Stored : Manager Conn → Result (Target Conn) → Type 0
  Stored m (ok t) = lookup t.device m.collectors ≡ some t.collector
  Stored m (err e) = Unit
  Stored m panics = ⊥

  with_point-Stored :
      (m : Manager Conn) (name device : String) (c : Collector Conn) (o : Option Point)
      → lookup device m.collectors ≡ some c
      → Stored m (with_point name device c o)
  unfolding Stored with_point
  with_point-Stored m name device c none h = tt
  with_point-Stored m name device c (some p) h = h

  with_collector-Stored :
      (m : Manager Conn) (name device : String) (o : Option (Collector Conn))
      → lookup device m.collectors ≡ o
      → Stored m (with_collector name device o m)
  unfolding Stored with_collector
  with_collector-Stored m name device none h = tt
  with_collector-Stored m name device (some c) h =
      with_point-Stored m name device c (lookup name m.points) h

  with_device-Stored :
      (m : Manager Conn) (name : String) (o : Option String) → Stored m (with_device name o m)
  unfolding Stored with_device
  with_device-Stored m name none = tt
  with_device-Stored m name (some device) =
      with_collector-Stored m name device (lookup device m.collectors) refl

  pub find-Stored : (m : Manager Conn) (name : String) → Stored m (find name m)
  unfolding find
  find-Stored m name = with_device-Stored m name (lookup name m.device_map)

  pub SameNames-refl : (m : Manager Conn) → SameNames m m
  SameNames-refl m = (refl, refl, λ name. SameDevice-refl (lookup name m.collectors))

  pub on_target-SameNames :
      {A : Type 0} (m : Manager Conn) (r : Result (Target Conn))
      (act : Point → Collector Conn → Result A × Collector Conn)
      → Stored m r
      → ((p : Point) (c : Collector Conn) → (act p c).1.device ≡ c.device)
      → SameNames m (on_target r act m).1
  unfolding Stored
  on_target-SameNames m (ok t) act there same = (
    refl,
    refl,
    put-SameDevice t.device t.collector (act t.point t.collector).1 m.collectors there
        (same t.point t.collector),
  )
  on_target-SameNames m (err e) act there same = SameNames-refl m
  on_target-SameNames m panics act there same = SameNames-refl m

  -- The same device, point and settings behind a name, or the same error.
  abbrev pub SameTarget : Result (Target Conn) → Result (Target Conn) → Type 0
  SameTarget (ok t) (ok u) =
      (u.device ≡ t.device) × (u.point ≡ t.point) × (u.collector.device ≡ t.collector.device)
  SameTarget (err e) (err f) = f ≡ e
  SameTarget _ _ = ⊥

  with_point-SameTarget :
      (name device : String) (c d : Collector Conn) (o : Option Point)
      → d.device ≡ c.device
      → SameTarget (with_point name device c o) (with_point name device d o)
  unfolding with_point
  with_point-SameTarget name device c d none h = refl
  with_point-SameTarget name device c d (some p) h = (refl, refl, h)

  with_collector-SameTarget :
      (name device : String) (o q : Option (Collector Conn)) (m m' : Manager Conn)
      → SameDevice o q
      → m'.points ≡ m.points
      → SameTarget (with_collector name device o m) (with_collector name device q m')
  unfolding with_collector
  with_collector-SameTarget name device none none m m' h e = refl
  with_collector-SameTarget name device none (some d) m m' h e = elim h [ ]
  with_collector-SameTarget name device (some c) none m m' h e = elim h [ ]
  with_collector-SameTarget name device (some c) (some d) m m' h e =
      subst
        (λ ps.
          SameTarget (with_point name device c (lookup name m.points))
            (with_point name device d (lookup name ps)))
        (sym e) (with_point-SameTarget name device c d (lookup name m.points) h)

  with_device-SameTarget :
      (name : String) (o : Option String) (m m' : Manager Conn)
      → SameNames m m'
      → SameTarget (with_device name o m) (with_device name o m')
  unfolding with_device
  with_device-SameTarget name none m m' h = refl
  with_device-SameTarget name (some device) m m' h =
      with_collector-SameTarget name device (lookup device m.collectors)
        (lookup device m'.collectors) m m' (h.2 device) h.0

  pub find-SameTarget :
      (name : String) (m m' : Manager Conn)
      → SameNames m m'
      → SameTarget (find name m) (find name m')
  unfolding find
  find-SameTarget name m m' h =
      subst
        (λ ds.
          SameTarget (with_device name (lookup name m.device_map) m)
            (with_device name (lookup name ds) m'))
        (sym h.1) (with_device-SameTarget name (lookup name m.device_map) m m' h)
