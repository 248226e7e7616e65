-- ===== src/Modbus/Manager/WriteRead.antt =====
-- Writing and reading a point by its name, through the manager, the collector and the device
-- (pkg/modbus/collector_manager.go, pkg/modbus/collector.go).
use mbsscaner.Prelude.{ℕ, ◌+◌, ◌≤◌, String, ◌≡◌, true, arith}
use mbsscaner.Config.Types.{RegisterType, Point}
use mbsscaner.Modbus.Result.{ok}
use mbsscaner.Modbus.Client.{Client}
use mbsscaner.Modbus.Value.{Value, Floats}
use mbsscaner.Modbus.Collector.{Collector, ensure_connected, after_check, test_connection}
use mbsscaner.Modbus.Collect.{good_value, PointValue}
use mbsscaner.Modbus.Write.{write_point, write_as, write_holding_register}
use mbsscaner.Modbus.Single.{read_single_point, collect_single_point, as_good}
use mbsscaner.Modbus.Single.Agrees.{HasWidth}
use mbsscaner.Modbus.Single.Encoded.{Keeps, converted}
use mbsscaner.Modbus.Single.Written.{
  Storage, write_holding_register-Carries, Carries-collect_single_point,
}
use mbsscaner.Modbus.Manager.{
  Manager, Target, register_collector, find, write_named, get_point_value,
}
use mbsscaner.Modbus.Manager.Registered.{find-register_collector}

module _ (floats : Floats) (client : Client) (device : Storage client) where
  open client use {Conn}
  open device use {Holds, serves_one}

  -- A live connection passes the test.
  ensure_connected-live :
      (c : Collector Conn) (mem : ℕ → ℕ)
      → c.connected ≡ true
      → Holds mem c.conn
      → (w : Conn) × (ensure_connected client c ≡ (ok tt, record c { conn = w })) × Holds mem w
  unfolding ensure_connected test_connection after_check
  ensure_connected-live c mem live held =
      let (w, e, held') = serves_one mem 0 c.conn held (omega arith) in (w, simp (live, e), held')

  -- The steps of a write and of a read, from those of their parts.
  write_point-steps :
      (p : Point) (v : Value) (c : Collector Conn) (w w' : Conn)
      → p.register_type ≡ RegisterType.holding_register
      → ensure_connected client c ≡ (ok tt, record c { conn = w })
      → write_holding_register floats client c.device.byte_order p v w ≡ (ok tt, w')
      → write_point floats client p v c ≡ (ok tt, record c { conn = w' })
  unfolding write_point write_as
  write_point-steps p v c w w' t e f = simp (e, t, f)

  read_single_point-steps :
      (p : Point) (v : Value) (c : Collector Conn) (w w' : Conn)
      → ensure_connected client c ≡ (ok tt, record c { conn = w })
      → collect_single_point client c.device.byte_order p w ≡ (ok v, w')
      → read_single_point floats client p c
        ≡ (ok (good_value c.device.name p v), record c { conn = w' })
  unfolding read_single_point as_good
  read_single_point-steps p v c w w' e f = simp (e, f)

  -- The same through the manager.
  write_named-steps :
      (name : String) (v : Value) (m : Manager Conn) (t : Target Conn) (c : Collector Conn)
      → find name m ≡ ok t
      → write_point floats client t.point v t.collector ≡ (ok tt, c)
      → write_named floats client name v m ≡ (ok tt, register_collector t.device c m)
  unfolding write_named register_collector
  write_named-steps name v m t c e f = simp (e, f)

  get_point_value-steps :
      (name : String) (v : PointValue) (m : Manager Conn) (t : Target Conn) (c : Collector Conn)
      → find name m ≡ ok t
      → read_single_point floats client t.point t.collector ≡ (ok v, c)
      → get_point_value floats client name m ≡ (ok v.value, register_collector t.device c m)
  unfolding get_point_value register_collector
  get_point_value-steps name v m t c e f = simp (e, f)

  -- A value written by name to a point of the holding registers, whose device is connected and
  -- answers, succeeds, and reading the name afterwards gives the value, converted to the point's
  -- data type: for 32 and 64 bits in every named byte order, for 16 bits in `big` and `middle`.
  pub write_named-get_point_value :
      (name : String) (v : Value) (m : Manager Conn) (t : Target Conn) (mem : ℕ → ℕ)
      → find name m ≡ ok t
      → t.collector.connected ≡ true
      → Holds mem t.collector.conn
      → t.point.register_type ≡ RegisterType.holding_register
      → HasWidth t.point.data_type t.point.length
      → t.point.address + t.point.length ≤ 0x1_0000
      → Keeps floats t.point.data_type t.collector.device.byte_order v
      → (m1 m2 : Manager Conn) × (write_named floats client name v m ≡ (ok tt, m1))
        × (get_point_value floats client name m1 ≡ (ok (converted floats t.point.data_type v), m2))
  unfolding good_value
  write_named-get_point_value name v m t mem found live held kind width fits keeps =
      let p = t.point in
      let order = t.collector.device.byte_order in
      let (w1, e1, held1) = ensure_connected-live t.collector mem live held in
      let (mem2, w2, e2, carries, held2) =
        write_holding_register-Carries floats client device order p v mem w1 held1 width fits
          keeps in
      let c2 = record t.collector { conn = w2 } in
      let (w3, e3, held3) = ensure_connected-live c2 mem2 live held2 in
      let (w4, e4) =
        Carries-collect_single_point floats client device order p v mem2 w3 held3 carries kind width
          fits in
      (
        register_collector t.device c2 m,
        _,
        write_named-steps name v m t c2 found (write_point-steps p v t.collector w1 w2 kind e1 e2),
        get_point_value-steps name _ (register_collector t.device c2 m)
            (record t { collector = c2 }) (record t.collector { conn = w4 })
            (find-register_collector name m t c2 found)
            (read_single_point-steps p (converted floats p.data_type v) c2 w3 w4 e3 e4),
      )
