-- ===== src/Service/System/Kept.antt =====
-- What the running service (pkg/service/service.go, pkg/modbus/collector_manager.go) keeps.
use mbsscaner.Prelude.{◌≡◌, refl, sym, ap, ◌∙◌, subst, String, List, Option, lookup}
use mbsscaner.Config.Types.{Point}
use mbsscaner.Modbus.Result.{ok, err, panics, Result}
use mbsscaner.Modbus.Client.{Client}
use mbsscaner.Modbus.Value.{Value, Floats}
use mbsscaner.Modbus.Collector.{Collector}
use mbsscaner.Modbus.Collect.{PointValue, collect_points}
use mbsscaner.Modbus.Write.{write_point}
use mbsscaner.Modbus.Single.{read_single_point}
use mbsscaner.Modbus.Manager.{value_alone, Manager, find, on_target, write_named, get_point_value}
use mbsscaner.Service.System.Devices.{
  write_point-device, read_single_point-device, collect_points-device,
}
use mbsscaner.Service.System.Names.{
  SameNames, SameTarget, SameDevice-trans, put-SameDevice, find-Stored, SameNames-refl,
  on_target-SameNames, find-SameTarget,
}
use mbsscaner.Kafka.{Broker}
use mbsscaner.Service.Polled.{Polled, after_collect, collect_device_data}
use mbsscaner.Service.System.{System, Step, round, write, read, Reach, here, next}

module _ (floats : Floats) (client : Client) (broker : Broker) (topic : String) where
  open client use {Conn}
  open broker use {State}

  after_collect-collector :
      (device : String) (p : Option State) (r : Result (List PointValue) × Collector Conn)
      → (after_collect floats client broker topic device p r).1.collector ≡ r.1
  unfolding after_collect
  after_collect-collector device p (ok vs, c) = refl
  after_collect-collector device p (err e, c) = refl
  after_collect-collector device p (panics, c) = refl

  collect_device_data-device :
      (device : String) (points : List Point) (s : Polled Conn State)
      → (collect_device_data floats client broker topic device points s).1.collector.device
        ≡ s.collector.device
  unfolding collect_device_data
  collect_device_data-device device points s =
      ap (λ (c : Collector Conn). c.device)
        (after_collect-collector device s.producer
          (collect_points floats client points s.collector))
      ∙ collect_points-device floats client points s.collector

  value_alone-state : {S : Type 0} (r : Result PointValue × S) → (value_alone r).1 ≡ r.1
  value_alone-state (ok v, s) = refl
  value_alone-state (err e, s) = refl
  value_alone-state (panics, s) = refl

  write_named-SameNames :
      (name : String) (v : Value) (m : Manager Conn)
      → SameNames m (write_named floats client name v m).1
  unfolding write_named
  write_named-SameNames name v m =
      on_target-SameNames m (find name m) (λ p. write_point floats client p v) (find-Stored m name)
        λ p c. write_point-device floats client p v c

  get_point_value-SameNames :
      (name : String) (m : Manager Conn) → SameNames m (get_point_value floats client name m).1
  unfolding get_point_value
  get_point_value-SameNames name m =
      subst (SameNames m)
        (sym (value_alone-state (on_target (find name m) (read_single_point floats client) m)))
        (on_target-SameNames m (find name m) (read_single_point floats client) (find-Stored m name)
          (read_single_point-device floats client))

  Step-SameNames :
      {s t : System Conn State}
      → Step floats client broker topic s t
      → SameNames s.manager t.manager
  Step-SameNames (round device points c s there) = (
    refl,
    refl,
    put-SameDevice device c _ s.manager.collectors there (
        collect_device_data-device device points (record { collector = c; producer = s.producer })),
  )
  Step-SameNames (write name v s) = write_named-SameNames name v s.manager
  Step-SameNames (read name s) = get_point_value-SameNames name s.manager

  SameNames-trans : (l m n : Manager Conn) → SameNames l m → SameNames m n → SameNames l n
  SameNames-trans l m n h k = (
    k.0 ∙ h.0,
    k.1 ∙ h.1,
    λ name.
        SameDevice-trans (lookup name l.collectors) (lookup name m.collectors)
          (lookup name n.collectors) (h.2 name) (k.2 name),
  )

  Reach-SameNames :
      (s t : System Conn State)
      → Reach floats client broker topic s t
      → SameNames s.manager t.manager
  Reach-SameNames s t here = SameNames-refl s.manager
  Reach-SameNames s u (next {t} r step) =
      SameNames-trans s.manager t.manager u.manager (Reach-SameNames s t r) (Step-SameNames step)

  -- However the rounds of the goroutines and the writes and reads of the HTTP handlers follow one
  -- another, every name keeps what it stood for when the service began: the same point, on a
  -- collector with the same device settings, or the same error.
  pub find_lasting :
      (s t : System Conn State) (name : String)
      → Reach floats client broker topic s t
      → SameTarget (find name s.manager) (find name t.manager)
  find_lasting s t name r = find-SameTarget name s.manager t.manager (Reach-SameNames s t r)
