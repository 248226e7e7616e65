-- ===== src/Modbus/Collect/Exact.antt =====
-- What `CollectPoints` (pkg/modbus/collector.go) returns on a device that answers: every point's
-- value, decoded from the point's own registers.
use mathlib.Core.List.{Perm, map-append}
use mathlib.Core.List.Perm
use mbsscaner.Prelude.{
  ℕ, ◌+◌, ◌-◌, ◌≤◌, ◌≡◌, refl, sym, ap, ap₂, ◌∙◌, List, [], ◌∷◌, ◌++◌, map, length, take, drop,
  arith, le→ltb, All, take-append, drop-append,
}
use mbsscaner.Config.Types.{RegisterType, Point, ModbusDevice}
use mbsscaner.Modbus.Grouping.{BatchGroup, group_points_by_register_type, all_points}
use mbsscaner.Modbus.Grouping.Partition.{group_points_by_register_type-perm}
use mbsscaner.Modbus.Grouping.Runs.{Fits, Run, Run-le, IsRun, group_points_by_register_type-IsRun}
use mbsscaner.Modbus.Batch.Serves.{slice, slice-append, length-slice}
use mbsscaner.Modbus.Batch.Whole.{Device, memory, read_batch-Yields}
use mbsscaner.Modbus.Result.{Result, ok, err, panics}
use mbsscaner.Modbus.Client.{Client}
use mbsscaner.Modbus.Value.{Value, Floats}
use mbsscaner.Modbus.Parse.{parse_registers_for_point, apply_scale}
use mbsscaner.Modbus.Parse.Total.{Settled, parse-Settled}
use mbsscaner.Modbus.Collector.{Collector, ensure_connected}
use mbsscaner.Modbus.Collect.{
  PointValue, bad_value, good_value, parsed_value, parse_group, after_read, collect_batch_group,
  collect_groups, collect_points, after_ensure,
}

-- A part of a slice.
slice-window :
    {A : Type 0} (mem : ℕ → A) (a offset n total : ℕ)
    → offset + n ≤ total
    → take n (drop offset (slice mem a total)) ≡ slice mem (a + offset) n
slice-window mem a offset n total h =
    let back =
      slice-append mem (a + offset) n (total - offset - n) (a + offset + n) (total - offset) refl
        (omega arith) in
    let whole = slice-append mem a offset (total - offset) (a + offset) total refl (omega arith) in
    rw
      (
        ← whole,
        drop-append (slice mem a offset) (slice mem (a + offset) (total - offset)) offset
            (sym (length-slice mem a offset)),
        ← back,
      )
      (take-append (slice mem (a + offset) n) (slice mem (a + offset + n) (total - offset - n)) n
        (sym (length-slice mem (a + offset) n)))

module _ (floats : Floats) (client : Client) (device : Device client) (d : ModbusDevice) where
  -- The registers of a point, and the value that they stand for: decoded in the device's byte
  -- order and scaled, or the bad value if they cannot be decoded.
  abbrev pub registers_of_point : Point → List ℕ
  registers_of_point p = slice (memory client device p.register_type) p.address p.length

  abbrev pub value_of : Point → Result Value → PointValue
  value_of p (ok v) = good_value d.name p (apply_scale floats p v)
  value_of p (err e) = bad_value d.name p
  value_of p panics = bad_value d.name p

  abbrev pub reading : Point → PointValue
  reading p = value_of p (parse_registers_for_point d.byte_order p (registers_of_point p))

  parsed_value_of :
      (p : Point) (r : Result Value) → Settled r → parsed_value floats d p r ≡ ok (value_of p r)
  unfolding parsed_value
  parsed_value_of p (ok v) h = refl
  parsed_value_of p (err e) h = refl
  parsed_value_of p panics h = elim h [ ]

  parse_group-cons :
      (registers : List ℕ) (offset : ℕ) (p : Point) (ps : List Point) (own : List ℕ)
      (rest : List PointValue)
      → offset + p.length ≤ length registers
      → take p.length (drop offset registers) ≡ own
      → Settled (parse_registers_for_point d.byte_order p own)
      → parse_group floats d registers (offset + p.length) ps ≡ ok rest
      → parse_group floats d registers offset (p ∷ ps)
        ≡ ok (value_of p (parse_registers_for_point d.byte_order p own) ∷ rest)
  unfolding parse_group
  parse_group-cons registers offset p ps own rest fits e h k =
      rw (le→ltb (length registers) (offset + p.length) fits)
        (rw e (rw (parsed_value_of p (parse_registers_for_point d.byte_order p own) h) (rw k)))

  -- The window of a point in the registers of its run.
  parse_group-exact :
      (t : RegisterType) (start total : ℕ) (ps : List Point) (a offset : ℕ)
      → Run t a ps (start + total)
      → start + offset ≡ a
      → parse_group floats d (slice (memory client device t) start total) offset ps
        ≡ ok (map reading ps)
  unfolding parse_group
  parse_group-exact t start total [] a offset r e = refl
  parse_group-exact t start total (p ∷ ps) a offset r e =
      let inside : offset + p.length ≤ total =
        omega (arith, Run-le t (a + p.length) ps (start + total) r.3) in
      let registers = slice (memory client device t) start total in
      let same_address : start + offset ≡ p.address = omega arith in
      let own : take p.length (drop offset registers) ≡ registers_of_point p =
        slice-window (memory client device t) start offset p.length total inside
        ∙ ap₂ (λ u b. slice (memory client device u) b p.length) (sym r.0) same_address in
      parse_group-cons registers offset p ps (registers_of_point p) (map reading ps)
        (omega (arith, length-slice (memory client device t) start total)) own
        (parse-Settled d.byte_order p (registers_of_point p)
          (omega (arith, length-slice (memory client device p.register_type) p.address p.length)))
        (parse_group-exact t start total ps (a + p.length) (offset + p.length) r.3 (omega arith))

  after_read-exact :
      (g : BatchGroup) (w : client.Conn)
      → IsRun g
      → after_read floats client d g
          (ok (slice (memory client device g.register_type) g.start_address g.total_length), w)
        ≡ (ok (map reading g.points), w)
  unfolding after_read
  after_read-exact g w h =
      ap (λ r. (r, w))
        (parse_group-exact g.register_type g.start_address g.total_length g.points g.start_address 0
          h.run (omega arith))

  collect_batch_group-exact :
      (g : BatchGroup) (w : client.Conn)
      → IsRun g
      → device.Live w
      → (w' : client.Conn) × (collect_batch_group floats client d g w
          ≡ (ok (map reading g.points), w'))
        × device.Live w'
  unfolding collect_batch_group
  collect_batch_group-exact g w h live =
      let (w', e, live') = read_batch-Yields client device g w live h.has_register h.in_range in
      (w', ap (after_read floats client d g) e ∙ after_read-exact g w' h, live')

  collect_groups-cons :
      (g : BatchGroup) (gs : List BatchGroup) (w w' w'' : client.Conn) (vs rest : List PointValue)
      → collect_batch_group floats client d g w ≡ (ok vs, w')
      → collect_groups floats client d gs w' ≡ (ok rest, w'')
      → collect_groups floats client d (g ∷ gs) w ≡ (ok (vs ++ rest), w'')
  unfolding collect_groups
  collect_groups-cons g gs w w' w'' vs rest e f = rw e (rw f)

  collect_groups-exact :
      (gs : List BatchGroup) (w : client.Conn)
      → All IsRun gs
      → device.Live w
      → (w' : client.Conn) × (collect_groups floats client d gs w
          ≡ (ok (map reading (all_points gs)), w'))
        × device.Live w'
  unfolding collect_groups
  collect_groups-exact [] w h live = (w, refl, live)
  collect_groups-exact (g ∷ gs) w h live =
      let (w', e, live') = collect_batch_group-exact g w h.0 live in
      let (w'', f, live'') = collect_groups-exact gs w' h.1 live' in
      (
        w'',
        collect_groups-cons g gs w w' w'' (map reading g.points) (map reading (all_points gs)) e f
            ∙ ap (λ vs. (ok vs, w'')) (sym (map-append reading g.points (all_points gs))),
        live'',
      )

collect_connected-ok :
    (floats : Floats) (client : Client) (points : List Point) (c : Collector client.Conn)
    (w : client.Conn) (vs : List PointValue)
    → collect_groups floats client c.device (group_points_by_register_type points) c.conn
      ≡ (ok vs, w)
    → after_ensure floats client points (ok tt, c) ≡ (ok vs, record c { conn = w })
unfolding after_ensure
collect_connected-ok floats client points c w vs e =
    ap (λ (r : Result (List PointValue) × client.Conn). (r.0, record c { conn = r.1 })) e

-- On a collector that `ensureConnected` leaves with a live device, `CollectPoints` returns one
-- value for each point, in some order, and no error: the value decoded from the point's own
-- registers, in the device's byte order and scaled, or the bad value if they cannot be decoded.
-- How the points are grouped, and how long reads are split, does not show in the values. Every
-- point has at least one register and ends below register 0xFFFF.
pub collect_points-exact :
    (floats : Floats) (client : Client) (device : Device client) (c c' : Collector client.Conn)
    (points : List Point)
    → ensure_connected client c ≡ (ok tt, c')
    → device.Live c'.conn
    → All Fits points
    → (values : List PointValue) × (w : client.Conn) × (collect_points floats client points c
        ≡ (ok values, record c' { conn = w }))
      × Perm values (map (reading floats client device c'.device) points)
      × device.Live w
unfolding collect_points
collect_points-exact floats client device c c' points e live fits =
    let groups = group_points_by_register_type points in
    let runs = group_points_by_register_type-IsRun points fits in
    let (w, f, live') =
      collect_groups-exact floats client device c'.device groups c'.conn runs.1 live in
    (
      map (reading floats client device c'.device) (all_points groups),
      w,
      ap (after_ensure floats client points) e ∙ collect_connected-ok floats client points c' w _ f,
      Perm.map (reading floats client device c'.device) (group_points_by_register_type-perm points),
      live',
    )
