-- ===== src/Modbus/Grouping/Runs.antt =====
-- The groups of `groupPointsByRegisterType` (pkg/modbus/collector.go) are runs of registers: one
-- read of the whole run has each point's registers at the sum of the lengths before it.
use mbsscaner.Prelude.{
  ℕ, ◌+◌, ◌≤◌, ◌<◌, ◌≡◌, refl, sym, List, [], ◌∷◌, ◌++◌, map, true, Bool-cases, inl, inr, arith,
  All,
}
use mbsscaner.Config.Types.{RegisterType, Point, register_type_eq, register_type_eq_sound}
use mbsscaner.Modbus.Grouping.{
  BatchGroup, follows_last, extends, new_group, extend_group, merge_point, merge_points, sort_group,
  group_points_by_register_type,
}
use mbsscaner.Modbus.Grouping.Sort.{IsAscending, AtLeast, sort_points_by_address_ascending}

-- The point has a register, and its last one lies below 0xFFFF, so its end does not wrap.
abbrev pub Fits : Point → Type 0
Fits p = (1 ≤ p.length) × (p.address + p.length < 0x1_0000)

-- The points have the type `t`, at least one register each, and fill the registers from `a` up to `e`, without a gap.
abbrev pub Run : RegisterType → ℕ → List Point → ℕ → Type 0
Run t a [] e = a ≡ e
Run t a (p ∷ ps) e =
    (p.register_type ≡ t) × (p.address ≡ a) × (1 ≤ p.length) × Run t (a + p.length) ps e

pub record IsRun (g : BatchGroup) : Type 0 where
  pub run : Run g.register_type g.start_address g.points (g.start_address + g.total_length)
  pub has_register : 1 ≤ g.total_length
  pub in_range : g.start_address + g.total_length < 0x1_0000

follows_last-end :
    (t : RegisterType) (a : ℕ) (ps : List Point) (e : ℕ) (p : Point)
    → Run t a ps e
    → e < 0x1_0000
    → follows_last ps p ≡ true
    → e ≡ p.address
unfolding follows_last
follows_last-end t a [] e p r h f = cc
follows_last-end t a (q ∷ []) e p r h f = ground arith
follows_last-end t a (q ∷ q' ∷ qs) e p r h f =
    follows_last-end t (a + q.length) (q' ∷ qs) e p r.3 h f

Run-append :
    (t : RegisterType) (a : ℕ) (ps : List Point) (e e' : ℕ) (p : Point)
    → Run t a ps e
    → p.register_type ≡ t
    → 1 ≤ p.length
    → e ≡ p.address
    → e + p.length ≡ e'
    → Run t a (ps ++ p ∷ []) e'
Run-append t a [] e e' p r h pos s k = (h, omega arith, pos, omega arith)
Run-append t a (q ∷ qs) e e' p r h pos s k =
    (r.0, r.1, r.2, Run-append t (a + q.length) qs e e' p r.3 h pos s k)

new_group-IsRun : (p : Point) → Fits p → IsRun (new_group p)
unfolding new_group
new_group-IsRun p h = record { run = (refl, refl, h.0, refl); has_register = h.0; in_range = h.1 }

extend_group-IsRun :
    (g : BatchGroup) (p : Point) → IsRun g → Fits p → extends g p ≡ true → IsRun (extend_group g p)
unfolding extends extend_group
extend_group-IsRun g p h fits joins =
    let both : (register_type_eq g.register_type p.register_type ≡ true)
        × (follows_last g.points p ≡ true) =
      ground arith in
    let meets : g.start_address + g.total_length ≡ p.address =
      follows_last-end g.register_type g.start_address g.points (g.start_address + g.total_length) p
        h.run h.in_range both.1 in
    record {
      run =
          Run-append _ _ g.points _ _ p h.run
            (sym (register_type_eq_sound g.register_type p.register_type both.0)) fits.0 meets
            (omega arith);
      has_register = omega arith;
      in_range = omega arith;
    }

merge_point-IsRun :
    (gs : List BatchGroup) (p : Point) → All IsRun gs → Fits p → All IsRun (merge_point gs p)
unfolding merge_point
merge_point-IsRun [] p h fits = (new_group-IsRun p fits, tt)
merge_point-IsRun (g ∷ gs) p h fits = elim (Bool-cases (extends g p)) [
  | inl joins ↦ rw joins (extend_group-IsRun g p h.0 fits joins, h.1)
  | inr apart ↦ rw apart (h.0, merge_point-IsRun gs p h.1 fits)
]

merge_points-IsRun :
    (gs : List BatchGroup) (ps : List Point)
    → All IsRun gs
    → All Fits ps
    → All IsRun (merge_points gs ps)
unfolding merge_points
merge_points-IsRun gs [] h fits = h
merge_points-IsRun gs (p ∷ ps) h fits =
    merge_points-IsRun (merge_point gs p) ps (merge_point-IsRun gs p h fits.0) fits.1

Run-AtLeast :
    (t : RegisterType) (a b : ℕ) (ps : List Point) (e : ℕ) → Run t a ps e → b ≤ a → AtLeast b ps
Run-AtLeast t a b [] e r h = tt
Run-AtLeast t a b (p ∷ ps) e r h =
    (omega arith, Run-AtLeast t (a + p.length) b ps e r.3 (omega arith))

Run-IsAscending :
    (t : RegisterType) (a : ℕ) (ps : List Point) (e : ℕ) → Run t a ps e → IsAscending ps
Run-IsAscending t a [] e r = tt
Run-IsAscending t a (p ∷ ps) e r = (
  Run-AtLeast t (a + p.length) p.address ps e r.3 (omega arith),
  Run-IsAscending t (a + p.length) ps e r.3,
)

-- Sorting leaves a run as it is.
sort_group_of_IsRun : (g : BatchGroup) → IsRun g → sort_group g ≡ g
unfolding sort_group
sort_group_of_IsRun g h =
    rw (sort_points_by_address_ascending g.points (Run-IsAscending _ _ g.points _ h.run))

map-sort_group_of_IsRun : (gs : List BatchGroup) → All IsRun gs → map sort_group gs ≡ gs
map-sort_group_of_IsRun [] h = refl
map-sort_group_of_IsRun (g ∷ gs) h = cc (sort_group_of_IsRun g h.0, map-sort_group_of_IsRun gs h.1)

-- If every point has a register and none reaches past register 0xFFFE, the final sort changes nothing, and each group is a
-- run: points of one register type that fill the registers from the group's start address on,
-- without a gap, for the group's total length, with no wrap-around of the uint16 sums.
pub group_points_by_register_type-IsRun :
    (points : List Point)
    → All Fits points
    → (group_points_by_register_type points ≡ merge_points [] points)
      × All IsRun (group_points_by_register_type points)
unfolding group_points_by_register_type
group_points_by_register_type-IsRun points fits =
    let runs : All IsRun (merge_points [] points) = merge_points-IsRun [] points tt fits in
    let same : map sort_group (merge_points [] points) ≡ merge_points [] points =
      map-sort_group_of_IsRun (merge_points [] points) runs in
    (same, rw same runs)

-- A run does not end before it starts.
pub Run-le : (t : RegisterType) (a : ℕ) (ps : List Point) (e : ℕ) → Run t a ps e → a ≤ e
Run-le t a [] e r = omega arith
Run-le t a (p ∷ ps) e r = omega (arith, Run-le t (a + p.length) ps e r.3)
