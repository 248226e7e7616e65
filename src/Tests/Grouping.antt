-- ===== src/Tests/Grouping.antt =====
-- Grouping and sorting (pkg/modbus/collector.go) at concrete points.
use mathlib.Core.List.{Perm}
use mbsscaner.Prelude.{ℕ, ◌≡◌, refl, arith, All, List, [], ◌∷◌, String, map}
use mbsscaner.Config.Types.{DataType, RegisterType, Point}
use mbsscaner.Modbus.Grouping.{
  BatchGroup, sort_points_by_address, group_points_by_register_type, merge_points,
}
use mbsscaner.Modbus.Grouping.Sort.{IsAscending, sort_points_by_address-sorts}
use mbsscaner.Modbus.Grouping.Runs.{IsRun, Fits, group_points_by_register_type-IsRun}
use mbsscaner.Modbus.Grouping.Wrap.{group_points_by_register_type_wraps}

abbrev pub point : String → RegisterType → ℕ → ℕ → Point
point name t a n = record {
  name = name;
  address = a;
  data_type = DataType.uint16;
  register_type = t;
  length = n;
  scale = 0x3ff0_0000_0000_0000;
  unit = "";
  description = "";
}

-- Two runs of holding registers and one of coils, mixed.
abbrev pub plant : List Point
plant =
    point "a" RegisterType.holding_register 100 2
    ∷ point "b" RegisterType.coil 5 1
    ∷ point "c" RegisterType.holding_register 102 1
    ∷ point "d" RegisterType.holding_register 7 1
    ∷ []

-- Points at the two ends of the address space.
abbrev top : Point
top = point "top" RegisterType.holding_register 0xffff 1

abbrev bottom : Point
bottom = point "bottom" RegisterType.holding_register 0 1

plant_groups :
    map (λ (g : BatchGroup). g.total_length) (group_points_by_register_type plant) ≡ 3 ∷ 1 ∷ 1 ∷ []
unfolding group_points_by_register_type
plant_groups = refl

sort_points_by_address-sorts_example :
    Perm (sort_points_by_address plant) plant × IsAscending (sort_points_by_address plant)
sort_points_by_address-sorts_example = sort_points_by_address-sorts plant

pub plant-Fits : All Fits plant
plant-Fits = omega arith

group_points_by_register_type-IsRun_example :
    (group_points_by_register_type plant ≡ merge_points [] plant)
    × All IsRun (group_points_by_register_type plant)
group_points_by_register_type-IsRun_example = group_points_by_register_type-IsRun plant plant-Fits

group_points_by_register_type_wraps_example :
    group_points_by_register_type (top ∷ bottom ∷ [])
    ≡ record {
      register_type = RegisterType.holding_register;
      start_address = 0xffff;
      points = bottom ∷ top ∷ [];
      total_length = 2;
    }
      ∷ []
group_points_by_register_type_wraps_example =
    group_points_by_register_type_wraps top bottom refl refl (omega arith) refl
