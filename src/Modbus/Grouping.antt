-- ===== src/Modbus/Grouping.antt =====
-- `groupPointsByRegisterType` and `sortPointsByAddress` (pkg/modbus/collector.go).
pub mod Sort
pub mod Partition
pub mod Runs
pub mod Wrap
use mbsscaner.Prelude.{
  ℕ, zero, suc, ◌+◌, ◌%◌, List, [], ◌∷◌, ◌++◌, map, Bool, true, false, ◌&&◌, ltb, ◌==◌,
  if◌then◌else◌, length,
}
use mbsscaner.Config.Types.{RegisterType, Point, register_type_eq}

pub record BatchGroup : Type 0 where
  pub register_type : RegisterType
  pub start_address : ℕ
  pub points : List Point
  pub total_length : ℕ

-- One round of the outer loop of `sortPointsByAddress`: `x` stands at index i, the list behind it.
-- A later point with a lower address changes places with the one at index i.
unfoldable pub sweep : Point → List Point → Point × List Point
sweep x [] = (x, [])
sweep x (y ∷ ys) =
    let (least, rest) = sweep (if ltb y.address x.address then y else x) ys in
    (least, (if ltb y.address x.address then x else y) ∷ rest)

-- The outer loop, with the number of indices that are left.
unfoldable pub sort_rounds : ℕ → List Point → List Point
unfolding sweep
sort_rounds zero points = points
sort_rounds (suc n) [] = []
sort_rounds (suc n) (x ∷ xs) = let (least, rest) = sweep x xs in least ∷ sort_rounds n rest

unfoldable pub sort_points_by_address : List Point → List Point
unfolding sort_rounds
sort_points_by_address points = sort_rounds (length points) points

-- `lastPoint.Address+lastPoint.Length == point.Address` on uint16. A group has a last point.
unfoldable pub follows_last : List Point → Point → Bool
follows_last [] p = false
follows_last (q ∷ []) p = (q.address + q.length) % 0x1_0000 == p.address
follows_last (q ∷ q' ∷ qs) p = follows_last (q' ∷ qs) p

unfoldable pub extends : BatchGroup → Point → Bool
unfolding follows_last register_type_eq
extends g p = register_type_eq g.register_type p.register_type && follows_last g.points p

unfoldable pub new_group : Point → BatchGroup
new_group p = record {
  register_type = p.register_type;
  start_address = p.address;
  points = p ∷ [];
  total_length = p.length;
}

unfoldable pub extend_group : BatchGroup → Point → BatchGroup
extend_group g p = record g {
  points = g.points ++ p ∷ [];
  total_length = (g.total_length + p.length) % 0x1_0000;
}

-- The body of the first loop: the first group that the point extends, or a new group at the end.
unfoldable pub merge_point : List BatchGroup → Point → List BatchGroup
unfolding extends extend_group new_group
merge_point [] p = new_group p ∷ []
merge_point (g ∷ gs) p = if extends g p then extend_group g p ∷ gs else g ∷ merge_point gs p

unfoldable pub merge_points : List BatchGroup → List Point → List BatchGroup
unfolding merge_point
merge_points groups [] = groups
merge_points groups (p ∷ ps) = merge_points (merge_point groups p) ps

unfoldable pub sort_group : BatchGroup → BatchGroup
unfolding sort_points_by_address
sort_group g = record g { points = sort_points_by_address g.points }

unfoldable pub group_points_by_register_type : List Point → List BatchGroup
unfolding merge_points sort_group
group_points_by_register_type points = map sort_group (merge_points [] points)

-- All points of all groups, group by group.
abbrev pub all_points : List BatchGroup → List Point
all_points [] = []
all_points (g ∷ gs) = g.points ++ all_points gs
