-- ===== src/Service/Started.antt =====
-- What `Init` of pkg/service/service.go registers, and what `Stop` leaves.
use mbsscaner.Prelude.{
  String, str_eq, ◌≡◌, subst, refl, sym, ap, ◌∙◌, List, [], ◌∷◌, Option, none, some, lookup, put,
  lookup-put_self, lookup-put_other, eq_iff, Bool-cases, false, inl, inr, ◌⊎◌, All, map,
}
use mbsscaner.Config.Types.{ModbusDevice, Point}
use mbsscaner.Config.Points.{validate_points, PointsError}
use mbsscaner.Modbus.Result.{ok, err, Reply, reply, refused, point_not_found}
use mbsscaner.Modbus.Client.{Client}
use mbsscaner.Modbus.Collector.{Collector, disconnect}
use mbsscaner.Modbus.Manager.{
  Manager, Target, new_manager, register_collector, register_point, find, with_device,
  with_collector, with_point,
}
use mbsscaner.Service.{
  Registry, register_points, new_collector, after_validation, after_load, after_new_collector,
  init_devices, init, some_collector, stop_collectors,
}

module _ {Conn : Type 0} where
  -- Every name is either unknown to the manager or leads to a collector and a point.
  abbrev pub IsClosed : Manager Conn → Type 0
  IsClosed m =
      (name : String)
      → (find name m ≡ err (point_not_found name)) ⊎ ((t : Target Conn) × (find name m ≡ ok t))

  -- What is behind a name: nothing, or a device that has a collector, and a point.
  abbrev Backed : String → Manager Conn → Type 0
  Backed name m =
      (lookup name m.device_map ≡ none)
      ⊎ ((d : String) × (c : Collector Conn) × (p : Point) × (lookup name m.device_map ≡ some d)
          × (lookup d m.collectors ≡ some c)
          × (lookup name m.points ≡ some p))

  Backed-find :
      (name : String) (m : Manager Conn)
      → Backed name m
      → (find name m ≡ err (point_not_found name)) ⊎ ((t : Target Conn) × (find name m ≡ ok t))
  unfolding find with_device with_collector with_point
  Backed-find name m (inl e) = inl (simp e)
  Backed-find name m (inr (d, c, p, e, f, g)) =
      inr (record { device = d; collector = c; point = p }, simp (e, f, g))

  register_collector-Backed :
      (d : String) (c : Collector Conn) (m : Manager Conn) (name : String)
      → Backed name m
      → Backed name (register_collector d c m)
  unfolding register_collector
  register_collector-Backed d c m name (inl e) = inl e
  register_collector-Backed d c m name (inr (d', c', p, e, f, g)) =
      elim (Bool-cases (str_eq d d')) [
        | inl same ↦
            let s : d ≡ d' = (eq_iff d d').0 same in
            inr (
              d',
              c,
              p,
              e,
              ap (λ n. lookup n (put d c m.collectors)) (sym s) ∙ lookup-put_self d c m.collectors,
              g,
            )
        | inr off ↦ inr (d', c', p, e, lookup-put_other d d' c m.collectors off ∙ f, g)
      ]

  register_point-Backed :
      (p : Point) (d : String) (c : Collector Conn) (m : Manager Conn) (name : String)
      → lookup d m.collectors ≡ some c
      → Backed name m
      → Backed name (register_point p d m)
  unfolding register_point
  register_point-Backed p d c m name h b = elim (Bool-cases (str_eq p.name name)) [
    | inl same ↦
        let s : p.name ≡ name = (eq_iff p.name name).0 same in
        inr (
          d,
          c,
          p,
          ap (λ n. lookup n (put p.name d m.device_map)) (sym s)
              ∙ lookup-put_self p.name d m.device_map,
          h,
          ap (λ n. lookup n (put p.name p m.points)) (sym s) ∙ lookup-put_self p.name p m.points,
        )
    | inr off ↦ kept off b
  ]
    where
      kept : str_eq p.name name ≡ false → Backed name m → Backed name (register_point p d m)
      kept off (inl e) = inl (lookup-put_other p.name name d m.device_map off ∙ e)
      kept off (inr (d', c', q, e, f, g)) = inr (
        d',
        c',
        q,
        lookup-put_other p.name name d m.device_map off ∙ e,
        f,
        lookup-put_other p.name name p m.points off ∙ g,
      )

  collectors-register_point :
      (p : Point) (d : String) (m : Manager Conn) → (register_point p d m).collectors ≡ m.collectors
  unfolding register_point
  collectors-register_point p d m = refl

  -- The invariant of the loop of `Init`.
  abbrev IsKept : Registry Conn → Type 0
  IsKept s = (s.collectors ≡ s.manager.collectors) × ((name : String) → Backed name s.manager)

  register_points-IsKept :
      (ps : List Point) (d : String) (c : Collector Conn) (m : Manager Conn)
      → lookup d m.collectors ≡ some c
      → ((name : String) → Backed name m)
      → ((register_points ps d m).collectors ≡ m.collectors)
        × ((name : String) → Backed name (register_points ps d m))
  unfolding register_points
  register_points-IsKept [] d c m h b = (refl, b)
  register_points-IsKept (p ∷ ps) d c m h b =
      let same = collectors-register_point p d m in
      let (e, rest) =
        register_points-IsKept ps d c (register_point p d m) (ap (lookup d) same ∙ h)
          (λ name. register_point-Backed p d c m name h (b name)) in
      (e ∙ same, rest)

module _ (client : Client) (new_client : ModbusDevice → Reply client.Conn)
    (load_points : String → Reply (List Point)) where
  open client use {Conn}

  after_validation-IsKept :
      (e : Option PointsError) (ps : List Point) (d : String) (c : Collector Conn)
      (s : Registry Conn)
      → lookup d s.manager.collectors ≡ some c
      → IsKept s
      → IsKept (after_validation client new_client load_points e ps d s)
  unfolding after_validation
  after_validation-IsKept (some e) ps d c s h k = k
  after_validation-IsKept none ps d c s h k =
      let (same, backed) = register_points-IsKept ps d c s.manager h k.1 in (k.0 ∙ sym same, backed)

  after_load-IsKept :
      (r : Reply (List Point)) (d : String) (c : Collector Conn) (s : Registry Conn)
      → lookup d s.manager.collectors ≡ some c
      → IsKept s
      → IsKept (after_load client new_client load_points r d s)
  unfolding after_load
  after_load-IsKept (refused e) d c s h k = k
  after_load-IsKept (reply ps) d c s h k = after_validation-IsKept (validate_points ps) ps d c s h k

  after_new_collector-IsKept :
      (r : Reply (Collector Conn)) (d : ModbusDevice) (s : Registry Conn)
      → IsKept s
      → IsKept (after_new_collector client new_client load_points r d s)
  unfolding after_new_collector register_collector
  after_new_collector-IsKept (refused e) d s k = k
  after_new_collector-IsKept (reply c) d s k =
      after_load-IsKept (load_points d.points_file) d.name c
        (record s {
          collectors = put d.name c s.collectors;
          manager = register_collector d.name c s.manager;
        })
        (lookup-put_self d.name c s.manager.collectors)
        (
          ap (put d.name c) k.0,
          λ name. register_collector-Backed d.name c s.manager name (k.1 name),
        )

  init_devices-IsKept :
      (ds : List ModbusDevice) (s : Registry Conn)
      → IsKept s
      → IsKept (init_devices client new_client load_points ds s)
  unfolding init_devices
  init_devices-IsKept [] s k = k
  init_devices-IsKept (d ∷ ds) s k =
      init_devices-IsKept ds
        (after_new_collector client new_client load_points
          (new_collector client new_client load_points d) d s)
        (after_new_collector-IsKept (new_collector client new_client load_points d) d s k)

  some_collector-IsKept :
      (s' s : Registry Conn) (cs : List (String × Collector Conn))
      → IsKept s'
      → some_collector client new_client load_points s' cs ≡ ok s
      → IsKept s
  some_collector-IsKept s' s [] k h = cc
  some_collector-IsKept s' s (c ∷ cs) k h = let e : s' ≡ s = cc in subst IsKept e k

  -- When `Init` succeeds, the service and the manager have the same collectors, and every name is
  -- either unknown to the manager or leads to a collector and a point, whichever devices, files and
  -- points were refused.
  pub init-IsClosed :
      (devices : List ModbusDevice) (s : Registry Conn)
      → init client new_client load_points devices ≡ ok s
      → (s.collectors ≡ s.manager.collectors) × IsClosed s.manager
  unfolding init new_manager
  init-IsClosed devices s h =
      let begun : Registry Conn = record { collectors = []; manager = new_manager } in
      let ended = init_devices client new_client load_points devices begun in
      let k = init_devices-IsKept devices begun (refl, λ name. inl refl) in
      let (same, backed) = some_collector-IsKept ended s ended.collectors k h in
      (same, λ name. Backed-find name s.manager (backed name))

module _ (client : Client) where
  -- The collector is not connected.
  abbrev pub IsStopped : String × Collector client.Conn → Type 0
  IsStopped entry = entry.1.connected ≡ false

  disconnect-connected : (c : Collector client.Conn) → (disconnect client c).connected ≡ false
  unfolding disconnect
  disconnect-connected c = elim (Bool-cases c.connected) [ inl on ↦ simp on | inr off ↦ simp off ]

  -- After the loop of `Stop` no collector of the service is connected, whether or not closing its
  -- connection failed, and the names are the same.
  pub stop_collectors-IsStopped :
      (cs : List (String × Collector client.Conn))
      → All IsStopped (stop_collectors client cs)
        × (map (λ (e : String × Collector client.Conn). e.0) (stop_collectors client cs)
            ≡ map (λ (e : String × Collector client.Conn). e.0) cs)
  unfolding stop_collectors
  stop_collectors-IsStopped [] = (tt, refl)
  stop_collectors-IsStopped ((n, c) ∷ cs) =
      let (stopped, names) = stop_collectors-IsStopped cs in
      ((disconnect-connected c, stopped), ap (◌∷◌ n) names)
