-- ===== src/Http/Served.antt =====
-- What the handlers of pkg/http/server.go answer.
use mbsscaner.Prelude.{ℕ, ◌+◌, ◌≤◌, String, str_eq, ◌≡◌, refl, true, false, none, some, ◌↔◌, arith}
use mbsscaner.Config.Types.{RegisterType}
use mbsscaner.Modbus.Result.{Result, ok, err, panics, Reply, reply, refused}
use mbsscaner.Modbus.Client.{Client}
use mbsscaner.Modbus.Value.{Value, Floats}
use mbsscaner.Modbus.Single.Agrees.{HasWidth}
use mbsscaner.Modbus.Single.Encoded.{Keeps, converted}
use mbsscaner.Modbus.Single.Written.{Storage}
use mbsscaner.Modbus.Manager.{Manager, Target, find, write_named, get_point_value}
use mbsscaner.Modbus.Manager.WriteRead.{write_named-get_point_value}
use mbsscaner.Http.{
  PointWriter, Registered, refusal, success_with, point_written, nothing, after_write, after_get,
  handle_write_point, handle_read_point,
}

module _ (W : PointWriter) where
  -- A write request that the writer carried out.
  abbrev pub Accepted : Reply (String × Value) → Registered W → Type 0
  Accepted request registered =
      (name : String) × (v : Value) × (s : W.State) × (s' : W.State) × (request ≡ reply (name, v))
      × (registered ≡ some s)
      × (W.write_point name v s ≡ (ok tt, s'))

  after_write-Accepted :
      (name : String) (v : Value) (s : W.State) (r : Result (Unit {0}) × W.State)
      → W.write_point name v s ≡ r
      → ((after_write W name v r).0.status ≡ 200) ↔ Accepted (reply (name, v)) (some s)
  unfolding after_write refusal success_with
  after_write-Accepted name v s (ok u, s') h = (λ e. (name, v, s, s', refl, refl, h), λ e. refl)
  after_write-Accepted name v s (err x, s') h =
      (λ e. absurd (omega arith), λ a. let (n, u, t, t2, q, o, w) = a in cc)
  after_write-Accepted name v s (panics, s') h =
      (λ e. absurd (omega arith), λ a. let (n, u, t, t2, q, o, w) = a in cc)

  -- The answer to a write has the status 200 exactly if a writer is registered, the request could
  -- be bound, and the writer reported no error.
  pub handle_write_point-Accepted :
      (request : Reply (String × Value)) (registered : Registered W)
      → ((handle_write_point W request registered).0.status ≡ 200) ↔ Accepted request registered
  unfolding handle_write_point refusal
  handle_write_point-Accepted request none =
      (λ h. absurd (omega arith), λ a. let (n, u, t, t2, q, o, w) = a in cc)
  handle_write_point-Accepted (refused e) (some s) =
      (λ h. absurd (omega arith), λ a. let (n, u, t, t2, q, o, w) = a in cc)
  handle_write_point-Accepted (reply (name, v)) (some s) =
      after_write-Accepted name v s (W.write_point name v s) refl

-- The manager as the writer that `InitCollectorManager` registers.
abbrev pub manager_writer : Floats → Client → PointWriter
manager_writer floats client = record {
  State = Manager client.Conn;
  write_point = write_named floats client;
  get_point_value = get_point_value floats client;
}

module _ (floats : Floats) (client : Client) (device : Storage client) where
  open client use {Conn}
  open device use {Holds}

  write_steps :
      (name : String) (v : Value) (m m1 : Manager Conn)
      → write_named floats client name v m ≡ (ok tt, m1)
      → handle_write_point (manager_writer floats client) (reply (name, v)) (some m)
        ≡ (success_with point_written name v, some m1)
  unfolding handle_write_point after_write
  write_steps name v m m1 e = simp e

  read_steps :
      (name : String) (v : Value) (m m1 : Manager Conn)
      → str_eq name "" ≡ false
      → get_point_value floats client name m ≡ (ok v, m1)
      → handle_read_point (manager_writer floats client) name (some m)
        ≡ (success_with nothing name v, some m1)
  unfolding handle_read_point after_get
  read_steps name v m m1 h e = simp (h, e)

  -- With the manager as the writer: a write request for a point of the holding registers whose
  -- device is connected and answers is answered with 200 and the value as it was sent, and a read
  -- request for the name that follows is answered with 200 and the value as the point's data type
  -- has it; in every named byte order for 32 and 64 bits, in `big` and `middle` for 16 bits.
  pub written_is_served :
      (name : String) (v : Value) (m : Manager Conn) (t : Target Conn) (mem : ℕ → ℕ)
      → str_eq name "" ≡ false
      → find name m ≡ ok t
      → t.collector.connected ≡ true
      → Holds mem t.collector.conn
      → t.point.register_type ≡ RegisterType.holding_register
      → HasWidth t.point.data_type t.point.length
      → t.point.address + t.point.length ≤ 0x1_0000
      → Keeps floats t.point.data_type t.collector.device.byte_order v
      → (m1 m2 : Manager Conn) × (handle_write_point
            (manager_writer floats client)
            (reply (name, v))
            (some m)
          ≡ (success_with point_written name v, some m1))
        × (handle_read_point (manager_writer floats client) name (some m1)
            ≡ (success_with nothing name (converted floats t.point.data_type v), some m2))
  written_is_served name v m t mem given found live held kind width fits keeps =
      let (m1, m2, e, f) =
        write_named-get_point_value floats client device name v m t mem found live held kind width
          fits keeps in
      (
        m1,
        m2,
        write_steps name v m m1 e,
        read_steps name (converted floats t.point.data_type v) m1 m2 given f,
      )
