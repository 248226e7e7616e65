-- ===== src/Modbus/Collect.antt =====
-- `CollectPoints` and `collectBatchGroup` (pkg/modbus/collector.go). The time stamps of the values
-- and the log lines are left out. A slice of the registers that reaches past their end panics;
-- Go would allow it up to the capacity of the slice.
pub mod Exact
pub mod Total
use mbsscaner.Prelude.{
  ℕ, zero, suc, ◌+◌, String, List, [], ◌∷◌, ◌++◌, map, Bool, true, false, ltb, if◌then◌else◌,
  length, take, drop,
}
use mbsscaner.Config.Types.{DataType, ByteOrder, Point, ModbusDevice}
use mbsscaner.Modbus.Grouping.{BatchGroup, group_points_by_register_type}
use mbsscaner.Modbus.Batch.{read_batch, lift}
use mbsscaner.Modbus.Result.{Result, ok, err, panics, M, ◌>>=◌, return, recover, then_run}
use mbsscaner.Modbus.Client.{Client}
use mbsscaner.Modbus.Value.{Value, nil, Floats}
use mbsscaner.Modbus.Parse.{parse_registers_for_point, apply_scale}
use mbsscaner.Modbus.Collector.{Collector, ensure_connected}

-- The texts "GOOD" and "BAD".
pub data Quality : Type 0 where
  good bad : Quality

pub record PointValue : Type 0 where
  pub name : String
  pub value : Value
  pub data_type : DataType
  pub unit : String
  pub description : String
  pub quality : Quality
  pub device : String

-- The literal for a point whose read or parse failed.
unfoldable pub bad_value : String → Point → PointValue
bad_value device p = record {
  name = p.name;
  value = nil;
  data_type = p.data_type;
  unit = p.unit;
  description = p.description;
  quality = bad;
  device = device;
}

unfoldable pub good_value : String → Point → Value → PointValue
good_value device p v = record {
  name = p.name;
  value = v;
  data_type = p.data_type;
  unit = p.unit;
  description = p.description;
  quality = good;
  device = device;
}

module _ (floats : Floats) (device : ModbusDevice) where
  -- The value that is appended for one parsed point.
  unfoldable pub parsed_value : Point → Result Value → Result PointValue
  unfolding bad_value good_value apply_scale
  parsed_value p (ok v) = ok (good_value device.name p (apply_scale floats p v))
  parsed_value p (err e) = ok (bad_value device.name p)
  parsed_value p panics = panics

  abbrev pub then_value : Result PointValue → Result (List PointValue) → Result (List PointValue)
  then_value (ok v) (ok vs) = ok (v ∷ vs)
  then_value (ok v) (err e) = err e
  then_value (ok v) panics = panics
  then_value (err e) _ = err e
  then_value panics _ = panics

  -- The loop over the points of a group, at `offset` in the registers.
  unfoldable pub parse_group : List ℕ → ℕ → List Point → Result (List PointValue)
  unfolding parsed_value parse_registers_for_point
  parse_group registers offset [] = ok []
  parse_group registers offset (p ∷ ps) =
      if ltb (length registers) (offset + p.length)
      then panics
      else then_value
          (parsed_value p
            (parse_registers_for_point device.byte_order p (take p.length (drop offset registers))))
          (parse_group registers (offset + p.length) ps)

module _ (floats : Floats) (client : Client) (device : ModbusDevice) where
  open client use {Conn}

  -- What follows the read: a failed one gives every point of the group a bad value.
  unfoldable pub after_read : BatchGroup → Result (List ℕ) × Conn → Result (List PointValue) × Conn
  unfolding parse_group bad_value
  after_read g (ok registers, w) = (parse_group floats device registers 0 g.points, w)
  after_read g (err e, w) = (ok (map (bad_value device.name) g.points), w)
  after_read g (panics, w) = (panics, w)

  unfoldable pub collect_batch_group : BatchGroup → M Conn (List PointValue)
  unfolding after_read read_batch
  collect_batch_group g w = after_read g (read_batch client g w)

  unfoldable pub collect_groups : List BatchGroup → M Conn (List PointValue)
  unfolding collect_batch_group bad_value
  collect_groups [] = return []
  collect_groups (g ∷ gs) = do
    values ← recover (collect_batch_group g) λ _. return (map (bad_value device.name) g.points)
    rest ← collect_groups gs
    return (values ++ rest)

module _ (floats : Floats) (client : Client) where
  open client use {Conn}

  -- An action on the connection, as one on the collector.
  abbrev pub on_conn : {A : Type 0} → M Conn A → M (Collector Conn) A
  on_conn m c = let (r, w) = m c.conn in (r, record c { conn = w })

  unfoldable pub collect_connected : List Point → M (Collector Conn) (List PointValue)
  unfolding collect_groups group_points_by_register_type
  collect_connected points c =
      on_conn (collect_groups floats client c.device (group_points_by_register_type points)) c

  -- Without a connection every point has a bad value, and no error is returned.
  unfoldable pub after_ensure :
      List Point → Result (Unit {0}) × Collector Conn → Result (List PointValue) × Collector Conn
  unfolding collect_connected bad_value
  after_ensure points (ok _, c) = collect_connected points c
  after_ensure points (err e, c) = (ok (map (bad_value c.device.name) points), c)
  after_ensure points (panics, c) = (panics, c)

  unfoldable pub collect_points : List Point → M (Collector Conn) (List PointValue)
  unfolding after_ensure ensure_connected
  collect_points points c = after_ensure points (ensure_connected client c)
