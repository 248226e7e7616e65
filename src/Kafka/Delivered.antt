-- ===== src/Kafka/Delivered.antt =====
-- From the points of a device to the message (pkg/modbus/collector.go, pkg/kafka/producer.go).
use mathlib.Core.List.{
  Perm, Mem, Nodup, Pairwise, eq-or-mem_of_mem-cons, mem-cons_self, mem-cons_of_mem, mem-map_of_mem,
  not-mem-nil,
}
use mathlib.Core.List.Perm
use mathlib.Core.Logic.Or
use mbsscaner.Prelude.{
  String, str_eq, eq_iff, ◌≡◌, ◌≢◌, subst, refl, sym, ap₂, List, [], ◌∷◌, map, Option, some, lookup,
  All, Bool-cases, inl, inr,
}
use mbsscaner.Config.Types.{Point, ModbusDevice}
use mbsscaner.Modbus.Result.{Result, ok, err, panics}
use mbsscaner.Modbus.Client.{Client}
use mbsscaner.Modbus.Value.{Value, Floats}
use mbsscaner.Modbus.Grouping.Runs.{Fits}
use mbsscaner.Modbus.Batch.Whole.{Device}
use mbsscaner.Modbus.Parse.{parse_registers_for_point}
use mbsscaner.Modbus.Collector.{Collector, ensure_connected}
use mbsscaner.Modbus.Collect.{PointValue, good_value, bad_value, collect_points}
use mbsscaner.Modbus.Collect.Exact.{reading, value_of, registers_of_point, collect_points-exact}
use mbsscaner.Kafka.{simple_message}
use mbsscaner.Kafka.Published.{Differs, HasDistinctNames, simple_message-All}

Option-IsSet : IsSet (Option Value)
Option-IsSet = hlevel

All-Mem :
    (P : PointValue → Type 0) (xs : List PointValue) (x : PointValue)
    → ((y : PointValue) → IsProp (P y))
    → All P xs
    → Mem x xs
    → P x
All-Mem P [] x prop h m = absurd (not-mem-nil m)
All-Mem P (y ∷ ys) x prop h m =
    Or.elim (prop x) (eq-or-mem_of_mem-cons m) (λ e. subst P (sym e) h.0)
      (λ k. All-Mem P ys x prop h.1 k)

differs : (v w : PointValue) → v.name ≢ w.name → Differs v.name w
differs v w h = elim (Bool-cases (str_eq w.name v.name)) [
  | inl same ↦ absurd (h (sym ((eq_iff w.name v.name).0 same)))
  | inr off ↦ off
]

fresh_name :
    (v : PointValue) (vs : List PointValue)
    → ((n : String) → Mem n (map (λ (w : PointValue). w.name) vs) → v.name ≢ n)
    → All (Differs v.name) vs
fresh_name v [] h = tt
fresh_name v (w ∷ vs) h =
    (differs v w (h w.name mem-cons_self), fresh_name v vs (λ n m. h n (mem-cons_of_mem w.name m)))

Nodup-HasDistinctNames :
    (vs : List PointValue) → Nodup (map (λ (w : PointValue). w.name) vs) → HasDistinctNames vs
Nodup-HasDistinctNames [] h = tt
Nodup-HasDistinctNames (v ∷ vs) (Pairwise.cons h p) =
    (fresh_name v vs h, Nodup-HasDistinctNames vs p)

-- A message of values in any order has each of them, if their names are distinct.
values_delivered :
    (device : String) (vs ws : List PointValue) (w : PointValue)
    → Perm vs ws
    → Nodup (map (λ (w : PointValue). w.name) ws)
    → Mem w ws
    → lookup w.name (simple_message device vs).values ≡ some w.value
values_delivered device vs ws w p nodup m =
    All-Mem (λ v. lookup v.name (simple_message device vs).values ≡ some v.value) vs w
      (λ v. Option-IsSet _ _)
      (simple_message-All device vs
        (Nodup-HasDistinctNames vs (Perm.nodup (Perm.symm (Perm.map _ p)) nodup)))
      ((Perm.mem_iff p).1 m)

module _ (floats : Floats) (client : Client) (device : Device client) where
  reading-name : (d : ModbusDevice) (p : Point) → (reading floats client device d p).name ≡ p.name
  unfolding good_value bad_value
  reading-name d p =
      go (parse_registers_for_point d.byte_order p (registers_of_point floats client device d p))
    where
      go : (r : Result Value) → (value_of floats client device d p r).name ≡ p.name
      go (ok v) = refl
      go (err e) = refl
      go panics = refl

  reading-names :
      (d : ModbusDevice) (points : List Point)
      → map (λ (v : PointValue). v.name) (map (reading floats client device d) points)
        ≡ map (λ (p : Point). p.name) points
  reading-names d [] = refl
  reading-names d (p ∷ ps) = ap₂ ◌∷◌ (reading-name d p) (reading-names d ps)

  -- On a collector that `ensureConnected` leaves with a live device, `CollectPoints` returns values
  -- from which the Kafka message is built with, under the name of each point, the reading of that
  -- point's own registers, if no two points share a name. Every point has at least one register and
  -- ends below register 0xFFFF.
  pub collect_points-simple_message :
      (c c' : Collector client.Conn) (points : List Point) (p : Point) (name : String)
      → ensure_connected client c ≡ (ok tt, c')
      → device.Live c'.conn
      → All Fits points
      → Nodup (map (λ (q : Point). q.name) points)
      → Mem p points
      → (values : List PointValue) × (w : client.Conn) × (collect_points floats client points c
          ≡ (ok values, record c' { conn = w }))
        × (lookup p.name (simple_message name values).values
            ≡ some (reading floats client device c'.device p).value)
  collect_points-simple_message c c' points p name e live fits nodup m =
      let d = c'.device in
      let (values, w, f, perm, live') =
        collect_points-exact floats client device c c' points e live fits in
      (
        values,
        w,
        f,
        subst
            (λ n.
              lookup n (simple_message name values).values
              ≡ some (reading floats client device d p).value)
            (reading-name d p)
            (values_delivered name values (map (reading floats client device d) points)
              (reading floats client device d p) perm
              (subst Nodup (sym (reading-names d points)) nodup)
              (mem-map_of_mem (reading floats client device d) m)),
      )
