-- ===== src/Modbus/Cache.antt =====
-- `PointCache` (pkg/modbus/point_cache.go), which nothing in the program starts. The locks and the
-- time stamps are left out.
use mbsscaner.Prelude.{
  String, str_eq, ◌≡◌, ap, List, Option, none, some, lookup, put, lookup-put_self, lookup-put_other,
  if◌then◌else◌, Bool-cases, inl, inr, eq_iff, sym, ◌∙◌, map,
}
use mbsscaner.Config.Types.{DataType}
use mbsscaner.Modbus.Result.{Result, ok, err, M, point_not_found}
use mbsscaner.Modbus.Value.{Value}
use mbsscaner.Modbus.Collect.{PointValue, good}

abbrev pub PointCache : Type 0
PointCache = List (String × PointValue)

-- The literal of `WritePoint`: what it does not set is empty.
unfoldable pub written_value : String → Value → PointValue
written_value name v = record {
  name = name;
  value = v;
  data_type = DataType.other "";
  unit = "";
  description = "";
  quality = good;
  device = "";
}

unfoldable pub cache_write : String → Value → M PointCache (Unit {0})
unfolding written_value
cache_write name v cache = (ok tt, put name (written_value name v) cache)

unfoldable pub set_point_from_collection : String → PointValue → PointCache → PointCache
set_point_from_collection name v cache = put name v cache

unfoldable pub get_point : String → PointCache → Option PointValue
get_point name cache = lookup name cache

abbrev value_or_error : String → Option PointValue → Result Value
value_or_error name none = err (point_not_found name)
value_or_error name (some v) = ok v.value

unfoldable pub cache_get : String → M PointCache Value
cache_get name cache = (value_or_error name (lookup name cache), cache)

-- The order of a Go map is not fixed; this is one of its orders.
unfoldable pub get_all_points : PointCache → List PointValue
get_all_points cache = map (λ (entry : String × PointValue). entry.1) cache

-- After a write, and after a value has been set from a collection, reading the name gives that
-- value, and reading any other name gives what it gave before.
pub cache_get-put :
    (name other : String) (v : Value) (p : PointValue) (cache : PointCache)
    → ((cache_get other (cache_write name v cache).1).0
        ≡ (if str_eq name other then ok v else (cache_get other cache).0))
      × ((cache_get other (set_point_from_collection name p cache)).0
          ≡ (if str_eq name other then ok p.value else (cache_get other cache).0))
unfolding cache_get cache_write set_point_from_collection written_value
cache_get-put name other v p cache = elim (Bool-cases (str_eq name other)) [
  | inl same ↦
      let e : name ≡ other = (eq_iff name other).0 same in
      rw same (
        ap (λ n. value_or_error other (lookup n (put name (written_value name v) cache))) (sym e)
            ∙ ap (value_or_error other) (lookup-put_self name (written_value name v) cache),
        ap (λ n. value_or_error other (lookup n (put name p cache))) (sym e)
            ∙ ap (value_or_error other) (lookup-put_self name p cache),
      )
  | inr off ↦ rw off (
    ap (value_or_error other) (lookup-put_other name other (written_value name v) cache off),
    ap (value_or_error other) (lookup-put_other name other p cache off),
  )
]
