-- ===== src/Service/System/Devices.antt =====
-- The operations on a collector (pkg/modbus/collector.go) keep its device.
use mbsscaner.Prelude.{◌≡◌, refl, ap, ◌∙◌, String, List}
use mbsscaner.Config.Types.{Point}
use mbsscaner.Modbus.Result.{Result, ok, err, panics, then_run, on_error, fail, failed_to_connect}
use mbsscaner.Modbus.Client.{Client}
use mbsscaner.Modbus.Value.{Value, Floats}
use mbsscaner.Modbus.Collector.{Collector, ensure_connected}
use mbsscaner.Modbus.Collector.Connected.{Ensured, ensure_connected-Ensured}
use mbsscaner.Modbus.Collect.{collect_points, collect_connected, after_ensure}
use mbsscaner.Modbus.Write.{write_point}
use mbsscaner.Modbus.Single.{read_single_point, as_good}

module _ (floats : Floats) (client : Client) where
  open client use {Conn}

  -- After `ensureConnected`, which keeps the device, code that keeps it.
  guarded-device :
      {A : Type 0} (c : Collector Conn) (r : Result (Unit {0}) × Collector Conn)
      (act : Collector Conn → Result A × Collector Conn)
      → Ensured client c r
      → ((d : Collector Conn) → (act d).1.device ≡ d.device)
      → (then_run (on_error r λ e. fail (failed_to_connect e)) λ _. act).1.device ≡ c.device
  guarded-device c (ok u, d) act h k = k d ∙ h.1
  guarded-device c (err e, d) act h k = h.1
  guarded-device c (panics, d) act h k = elim h [ ]

  pub write_point-device :
      (p : Point) (v : Value) (c : Collector Conn)
      → (write_point floats client p v c).1.device ≡ c.device
  unfolding write_point
  write_point-device p v c =
      guarded-device c (ensure_connected client c) _ (ensure_connected-Ensured client c) λ d. refl

  as_good-device :
      (device : String) (p : Point) (r : Result Value × Collector Conn)
      → (as_good device p r).1 ≡ r.1
  unfolding as_good
  as_good-device device p (ok v, c) = refl
  as_good-device device p (err e, c) = refl
  as_good-device device p (panics, c) = refl

  pub read_single_point-device :
      (p : Point) (c : Collector Conn) → (read_single_point floats client p c).1.device ≡ c.device
  unfolding read_single_point
  read_single_point-device p c =
      guarded-device c (ensure_connected client c) _ (ensure_connected-Ensured client c)
        λ d. ap (λ (x : Collector Conn). x.device) (as_good-device d.device.name p _)

  after_ensure-device :
      (points : List Point) (c : Collector Conn) (r : Result (Unit {0}) × Collector Conn)
      → Ensured client c r
      → (after_ensure floats client points r).1.device ≡ c.device
  unfolding after_ensure collect_connected
  after_ensure-device points c (ok u, d) h = h.1
  after_ensure-device points c (err e, d) h = h.1
  after_ensure-device points c (panics, d) h = elim h [ ]

  pub collect_points-device :
      (points : List Point) (c : Collector Conn)
      → (collect_points floats client points c).1.device ≡ c.device
  unfolding collect_points
  collect_points-device points c =
      after_ensure-device points c (ensure_connected client c) (ensure_connected-Ensured client c)
