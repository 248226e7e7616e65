-- ===== src/Modbus/Collect/Total.antt =====
-- What `CollectPoints` (pkg/modbus/collector.go) returns on any device, whatever fails on the way:
-- one value for each point, and no panic.
use mathlib.Core.List.{Perm, map-append}
use mathlib.Core.List.Perm
use mbsscaner.Prelude.{
  ℕ, zero, suc, ◌+◌, ◌-◌, ◌≤◌, ◌≡◌, refl, sym, ap, ap₂, ◌∙◌, subst, String, List, [], ◌∷◌, ◌++◌,
  map, length, take, drop, arith, le→ltb, All,
}
use mbsscaner.Config.Types.{RegisterType, Point, ModbusDevice}
use mbsscaner.Modbus.Grouping.{BatchGroup, group_points_by_register_type, all_points}
use mbsscaner.Modbus.Grouping.Partition.{group_points_by_register_type-perm}
use mbsscaner.Modbus.Grouping.Runs.{Fits, Run, IsRun, group_points_by_register_type-IsRun}
use mbsscaner.Modbus.Batch.{read_batch}
use mbsscaner.Modbus.Batch.Sized.{Honest, Sized, lengths, read_batch-Sized}
use mbsscaner.Modbus.Result.{Result, Error, ◌>>=◌, ok, err, panics, then_run, on_error, return}
use mbsscaner.Modbus.Client.{Client}
use mbsscaner.Modbus.Value.{Value, Floats}
use mbsscaner.Modbus.Parse.Total.{Settled, parse-Settled}
use mbsscaner.Modbus.Collector.{Collector, ensure_connected}
use mbsscaner.Modbus.Collector.Connected.{Ensured, ensure_connected-Ensured}
use mbsscaner.Modbus.Collect.{
  PointValue, bad_value, good_value, parsed_value, then_value, parse_group, after_read,
  collect_batch_group, collect_groups, collect_connected, collect_points, after_ensure,
}

abbrev names : List PointValue → List String
names vs = map (λ (v : PointValue). v.name) vs

abbrev point_names : List Point → List String
point_names ps = map (λ (p : Point). p.name) ps

-- A list of values, one for each point, in order.
abbrev Names : List Point → Result (List PointValue) → Type 0
Names ps (ok vs) = names vs ≡ point_names ps
Names ps (err e) = ⊥
Names ps panics = ⊥

abbrev Named : Point → Result PointValue → Type 0
Named p (ok v) = v.name ≡ p.name
Named p (err e) = ⊥
Named p panics = ⊥

parsed_value-Named :
    (floats : Floats) (d : ModbusDevice) (p : Point) (r : Result Value)
    → Settled r
    → Named p (parsed_value floats d p r)
unfolding parsed_value good_value bad_value
parsed_value-Named floats d p (ok v) h = refl
parsed_value-Named floats d p (err e) h = refl
parsed_value-Named floats d p panics h = h

length-drop_lem : (n : ℕ) (xs : List ℕ) → length (drop n xs) ≡ length xs - n
length-drop_lem zero xs = omega arith
length-drop_lem (suc n) [] = omega arith
length-drop_lem (suc n) (x ∷ xs) = omega (arith, length-drop_lem n xs)

length-take_lem : (n : ℕ) (xs : List ℕ) → n ≤ length xs → length (take n xs) ≡ n
length-take_lem zero xs h = refl
length-take_lem (suc n) [] h = absurd (omega arith)
length-take_lem (suc n) (x ∷ xs) h = ap suc (length-take_lem n xs (omega arith))

window_has_register :
    (n offset : ℕ) (registers : List ℕ)
    → 1 ≤ n
    → offset + n ≤ length registers
    → 1 ≤ length (take n (drop offset registers))
window_has_register n offset registers h k =
    let e = length-drop_lem offset registers in
    omega (arith, length-take_lem n (drop offset registers) (omega arith))

lengths_of_Run :
    (t : RegisterType) (a : ℕ) (ps : List Point) (e : ℕ)
    → Run t a ps e
    → (a + lengths ps ≡ e) × All (λ (p : Point). 1 ≤ p.length) ps
lengths_of_Run t a [] e r = (omega arith, tt)
lengths_of_Run t a (p ∷ ps) e r =
    let (sum, each) = lengths_of_Run t (a + p.length) ps e r.3 in (omega arith, (r.2, each))

module _ (floats : Floats) (d : ModbusDevice) where
  then_value-Names :
      (p : Point) (ps : List Point) (r : Result PointValue) (rest : Result (List PointValue))
      → Named p r
      → Names ps rest
      → Names (p ∷ ps) (then_value floats d r rest)
  then_value-Names p ps (ok v) (ok vs) e f = ap₂ ◌∷◌ e f
  then_value-Names p ps (ok v) (err x) e f = f
  then_value-Names p ps (ok v) panics e f = f
  then_value-Names p ps (err x) rest e f = elim e [ ]
  then_value-Names p ps panics rest e f = elim e [ ]

  parse_group-Names :
      (registers : List ℕ) (offset : ℕ) (ps : List Point)
      → All (λ (p : Point). 1 ≤ p.length) ps
      → offset + lengths ps ≤ length registers
      → Names ps (parse_group floats d registers offset ps)
  unfolding parse_group
  parse_group-Names registers offset [] h k = refl
  parse_group-Names registers offset (p ∷ ps) h k =
      rw (le→ltb (length registers) (offset + p.length) (omega arith)) (
        then_value-Names p ps _ _
          (parsed_value-Named floats d p _ (
            parse-Settled d.byte_order p (take p.length (drop offset registers))
              (window_has_register p.length offset registers h.0 (omega arith))))
          (parse_group-Names registers (offset + p.length) ps h.1 (omega arith)))

  bad_values : (ps : List Point) → names (map (bad_value d.name) ps) ≡ point_names ps
  unfolding bad_value
  bad_values [] = refl
  bad_values (p ∷ ps) = ap (◌∷◌ p.name) (bad_values ps)

module _ (floats : Floats) (client : Client) (honest : Honest client) where
  open client use {Conn}

  after_read-Names :
      (d : ModbusDevice) (g : BatchGroup) (r : Result (List ℕ) × Conn)
      → IsRun g
      → Sized g.total_length r
      → Names g.points (after_read floats client d g r).0
  unfolding after_read
  after_read-Names d g (ok registers, w) run e =
      let (sum, each) = lengths_of_Run g.register_type g.start_address g.points _ run.run in
      parse_group-Names floats d registers 0 g.points each (omega arith)
  after_read-Names d g (err x, w) run e = bad_values floats d g.points
  after_read-Names d g (panics, w) run e = e

  collect_batch_group-Names :
      (d : ModbusDevice) (g : BatchGroup) (w : Conn)
      → IsRun g
      → Names g.points (collect_batch_group floats client d g w).0
  unfolding collect_batch_group
  collect_batch_group-Names d g w run = after_read-Names d g (read_batch client g w) run (
      read_batch-Sized client honest g w (
        let (sum, each) = lengths_of_Run g.register_type g.start_address g.points _ run.run in
        omega arith))

  -- The values of a group, before those of the groups behind it.
  with_rest :
      (d : ModbusDevice) (ps qs : List Point) (r : Result (List PointValue) × Conn)
      (h : Error → Conn → Result (List PointValue) × Conn)
      (rest : Conn → Result (List PointValue) × Conn)
      → Names ps r.0
      → ((w : Conn) → Names qs (rest w).0)
      → Names (ps ++ qs) (then_run (on_error r h) λ vs. (rest >>= λ ws. return (vs ++ ws))).0
  with_rest d ps qs (ok vs, w) h rest e f = append (rest w) (f w)
    where
      append :
          (r : Result (List PointValue) × Conn)
          → Names qs r.0
          → Names (ps ++ qs) (then_run r λ ws. return (vs ++ ws)).0
      append (ok ws, w') k =
          map-append (λ (v : PointValue). v.name) vs ws
          ∙ ap₂ ◌++◌ e k
          ∙ sym (map-append (λ (p : Point). p.name) ps qs)
      append (err x, w') k = k
      append (panics, w') k = k
  with_rest d ps qs (err x, w) h rest e f = elim e [ ]
  with_rest d ps qs (panics, w) h rest e f = elim e [ ]

  collect_groups-Names :
      (d : ModbusDevice) (gs : List BatchGroup) (w : Conn)
      → All IsRun gs
      → Names (all_points gs) (collect_groups floats client d gs w).0
  unfolding collect_groups
  collect_groups-Names d [] w h = refl
  collect_groups-Names d (g ∷ gs) w h =
      with_rest d g.points (all_points gs) (collect_batch_group floats client d g w) _
        (collect_groups floats client d gs) (collect_batch_group-Names d g w h.0)
        λ w'. collect_groups-Names d gs w' h.1

-- What `CollectPoints` returns: no error, and the given points' names, in some order.
abbrev pub NamesEach : List Point → Result (List PointValue) → Type 0
NamesEach ps (ok vs) = Perm (names vs) (point_names ps)
NamesEach ps (err e) = ⊥
NamesEach ps panics = ⊥

-- Whatever the connection does, and whichever reads the library refuses, `CollectPoints` returns
-- without an error or a panic, and its values carry the points' names, each as often as the points
-- do. The library answers a read with as many values as were asked for, or refuses it; every point
-- has at least one register and ends below register 0xFFFF.
pub collect_points_total :
    (floats : Floats) (client : Client)
    → Honest client
    → (points : List Point) → All Fits points
    → (c : Collector client.Conn) → NamesEach points (collect_points floats client points c).0
unfolding collect_points after_ensure collect_connected
collect_points_total floats client honest points fits c =
    ensured (ensure_connected client c) (ensure_connected-Ensured client c)
  where
    grouped :
        (r : Result (List PointValue))
        → Names (all_points (group_points_by_register_type points)) r
        → NamesEach points r
    grouped (ok vs) e =
        subst (λ ns. Perm ns (point_names points)) (sym e)
          (Perm.map (λ (p : Point). p.name) (group_points_by_register_type-perm points))
    grouped (err x) e = e
    grouped panics e = e

    ensured :
        (r : Result (Unit {0}) × Collector client.Conn)
        → Ensured client c r
        → NamesEach points (after_ensure floats client points r).0
    ensured (ok u, c') h =
        grouped
          (collect_groups floats client c'.device (group_points_by_register_type points) c'.conn).0
          (collect_groups-Names floats client honest c'.device
            (group_points_by_register_type points) c'.conn
            (group_points_by_register_type-IsRun points fits).1)
    ensured (err e, c') h =
        subst (λ ns. Perm ns (point_names points)) (sym (bad_values floats c'.device points))
          Perm.rfl
    ensured (panics, c') h = h
