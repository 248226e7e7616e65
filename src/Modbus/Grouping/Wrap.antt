-- ===== src/Modbus/Grouping/Wrap.antt =====
-- `groupPointsByRegisterType` (pkg/modbus/collector.go) at the top of the address space.
use mbsscaner.Prelude.{◌+◌, ◌%◌, ◌<◌, ◌≡◌, refl, [], ◌∷◌, arith, true, ltb, lt→ltb, ◌==◌}
use mbsscaner.Config.Types.{Point, register_type_eq, register_type_eq_refl}
use mbsscaner.Modbus.Grouping.{extends, group_points_by_register_type}

-- A point that ends at register 0xFFFF and a point of the same type at register 0 are taken for
-- neighbours. They become one group that starts at the first of them, with the second in front:
-- the point at register 0 is given the first registers that are read from the other's address.
pub group_points_by_register_type_wraps :
    (p q : Point)
    → q.register_type ≡ p.register_type
    → p.address + p.length ≡ 0x1_0000
    → 0 < p.address
    → q.address ≡ 0
    → group_points_by_register_type (p ∷ q ∷ [])
      ≡ record {
        register_type = p.register_type;
        start_address = p.address;
        points = q ∷ p ∷ [];
        total_length = (p.length + q.length) % 0x1_0000;
      }
        ∷ []
unfolding group_points_by_register_type extends
group_points_by_register_type_wraps p q t e h z =
    let type_eq : register_type_eq p.register_type q.register_type ≡ true =
      rw t (register_type_eq_refl p.register_type) in
    let joins : ((p.address + p.length) % 0x1_0000 == q.address) ≡ true = rw (e, z) refl in
    let lower : ltb q.address p.address ≡ true = lt→ltb q.address p.address (omega arith) in
    rw (type_eq, joins) (rw lower)
