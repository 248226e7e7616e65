-- ===== src/Modbus/Grouping/Partition.antt =====
-- `groupPointsByRegisterType` (pkg/modbus/collector.go) loses and invents no point.
use mathlib.Core.List.{Perm, perm_middle}
use mathlib.Core.List.Perm
use mbsscaner.Prelude.{List, [], ◌∷◌, ◌++◌, map, append_assoc, append-nil, Bool-cases, inl, inr}
use mbsscaner.Config.Types.{Point}
use mbsscaner.Modbus.Grouping.{
  BatchGroup, extends, merge_point, merge_points, sort_group, group_points_by_register_type,
  all_points,
}
use mbsscaner.Modbus.Grouping.Sort.{sort_points_by_address-sorts}

merge_point-perm :
    (groups : List BatchGroup) (p : Point)
    → Perm (all_points (merge_point groups p)) (p ∷ all_points groups)
unfolding merge_point
merge_point-perm [] p = Perm.rfl
merge_point-perm (g ∷ gs) p = elim (Bool-cases (extends g p)) [
  | inl joins ↦
      rw joins
        (rw (append_assoc g.points (p ∷ []) (all_points gs)) (perm_middle g.points (all_points gs)))
  | inr apart ↦ rw apart (
      Perm.trans (Perm.append_left g.points (merge_point-perm gs p))
        (perm_middle g.points (all_points gs)))
]

merge_points-perm :
    (groups : List BatchGroup) (ps : List Point)
    → Perm (all_points (merge_points groups ps)) (ps ++ all_points groups)
unfolding merge_points
merge_points-perm groups [] = Perm.rfl
merge_points-perm groups (p ∷ ps) = Perm.trans (merge_points-perm (merge_point groups p) ps) (
    Perm.trans (Perm.append_left ps (merge_point-perm groups p))
      (perm_middle ps (all_points groups)))

sort_group-perm :
    (groups : List BatchGroup) → Perm (all_points (map sort_group groups)) (all_points groups)
unfolding sort_group
sort_group-perm [] = Perm.rfl
sort_group-perm (g ∷ gs) =
    Perm.append (sort_points_by_address-sorts g.points).0 (sort_group-perm gs)

-- The groups together hold exactly the points that were given, each as often.
pub group_points_by_register_type-perm :
    (points : List Point) → Perm (all_points (group_points_by_register_type points)) points
unfolding group_points_by_register_type
group_points_by_register_type-perm points =
    Perm.trans (sort_group-perm (merge_points [] points))
      (rw append-nil at (merge_points-perm [] points))
