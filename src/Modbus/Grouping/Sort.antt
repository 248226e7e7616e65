-- ===== src/Modbus/Grouping/Sort.antt =====
-- `sortPointsByAddress` (pkg/modbus/collector.go) sorts.
use mathlib.Core.List.{Perm}
use mathlib.Core.List.Perm
use mbsscaner.Prelude.{
  ltb→lt, le→ltb, ℕ, zero, suc, ◌≤◌, ◌≡◌, refl, List, [], ◌∷◌, ltb, length, arith, Bool-cases, All,
  inl, inr, ap,
}
use mbsscaner.Config.Types.{Point}
use mbsscaner.Modbus.Grouping.{sweep, sort_rounds, sort_points_by_address}

-- Addresses do not fall from left to right.
abbrev pub IsAscending : List Point → Type 0
IsAscending [] = Unit
IsAscending (p ∷ ps) = All (λ q. p.address ≤ q.address) ps × IsAscending ps

sweep-perm : (x : Point) (xs : List Point) → Perm ((sweep x xs).0 ∷ (sweep x xs).1) (x ∷ xs)
unfolding sweep
sweep-perm x [] = Perm.rfl
sweep-perm x (y ∷ ys) = elim (Bool-cases (ltb y.address x.address)) [
  | inl lower ↦ rw (lower, sweep) (Perm.trans (Perm.swap _ _ _) (Perm.cons x (sweep-perm y ys)))
  | inr higher ↦
      rw (higher, sweep)
        (Perm.trans (Perm.swap _ _ _)
          (Perm.trans (Perm.cons y (sweep-perm x ys)) (Perm.swap _ _ _)))
]

sweep-length : (x : Point) (xs : List Point) → length (sweep x xs).1 ≡ length xs
unfolding sweep
sweep-length x [] = refl
sweep-length x (y ∷ ys) = elim (Bool-cases (ltb y.address x.address)) [
  | inl lower ↦ rw lower (ap suc (sweep-length y ys))
  | inr higher ↦ rw higher (ap suc (sweep-length x ys))
]

-- A lower bound of all addresses stays one.
abbrev pub AtLeast : ℕ → List Point → Type 0
AtLeast a = All λ q. a ≤ q.address

-- The first component is least; `a` is its address.
sweep_least :
    (a : ℕ) (x : Point) (xs : List Point)
    → a ≡ (sweep x xs).0.address
    → (a ≤ x.address) × AtLeast a (sweep x xs).1
unfolding sweep
sweep_least a x [] e = (omega arith, tt)
sweep_least a x (y ∷ ys) e = elim (Bool-cases (ltb y.address x.address)) [
  | inl lower ↦
      let (head, tail) = sweep_least a y ys (rw lower at e) in
      let below = ltb→lt y.address x.address lower in rw lower (omega arith, (omega arith, tail))
  | inr higher ↦
      let (head, tail) = sweep_least a x ys (rw higher at e) in
      let above : x.address ≤ y.address = ground arith in rw higher (head, (omega arith, tail))
]

sweep-AtLeast :
    (a : ℕ) (x : Point) (xs : List Point)
    → a ≤ x.address
    → AtLeast a xs
    → (a ≤ (sweep x xs).0.address) × AtLeast a (sweep x xs).1
unfolding sweep
sweep-AtLeast a x [] h hs = (h, tt)
sweep-AtLeast a x (y ∷ ys) h hs = elim (Bool-cases (ltb y.address x.address)) [
  | inl lower ↦ let (head, tail) = sweep-AtLeast a y ys hs.0 hs.1 in rw lower (head, (h, tail))
  | inr higher ↦ let (head, tail) = sweep-AtLeast a x ys h hs.1 in rw higher (head, (hs.0, tail))
]

sort_rounds-AtLeast : (a n : ℕ) (xs : List Point) → AtLeast a xs → AtLeast a (sort_rounds n xs)
unfolding sort_rounds
sort_rounds-AtLeast a zero xs h = h
sort_rounds-AtLeast a (suc n) [] h = h
sort_rounds-AtLeast a (suc n) (x ∷ xs) h =
    let (head, tail) = sweep-AtLeast a x xs h.0 h.1 in (head, sort_rounds-AtLeast a n _ tail)

sort_rounds-IsAscending : (n : ℕ) (xs : List Point) → length xs ≤ n → IsAscending (sort_rounds n xs)
unfolding sort_rounds
sort_rounds-IsAscending zero [] h = tt
sort_rounds-IsAscending zero (x ∷ xs) h = absurd (omega arith)
sort_rounds-IsAscending (suc n) [] h = tt
sort_rounds-IsAscending (suc n) (x ∷ xs) h = (
  sort_rounds-AtLeast _ n _ (sweep_least _ x xs refl).1,
  sort_rounds-IsAscending n _ (omega (arith, sweep-length x xs)),
)

sort_rounds-perm : (n : ℕ) (xs : List Point) → Perm (sort_rounds n xs) xs
unfolding sort_rounds
sort_rounds-perm zero xs = Perm.rfl
sort_rounds-perm (suc n) [] = Perm.rfl
sort_rounds-perm (suc n) (x ∷ xs) =
    Perm.trans (Perm.cons _ (sort_rounds-perm n (sweep x xs).1)) (sweep-perm x xs)

-- `sortPointsByAddress` leaves the same points, in an order in which no address falls.
pub sort_points_by_address-sorts :
    (points : List Point)
    → Perm (sort_points_by_address points) points × IsAscending (sort_points_by_address points)
unfolding sort_points_by_address
sort_points_by_address-sorts points = (
  sort_rounds-perm (length points) points,
  sort_rounds-IsAscending (length points) points (omega arith),
)

-- What ascends already stays as it is, points with equal addresses included.
sweep_ascending : (x : Point) (xs : List Point) → AtLeast x.address xs → sweep x xs ≡ (x, xs)
unfolding sweep
sweep_ascending x [] h = refl
sweep_ascending x (y ∷ ys) h = rw (le→ltb y.address x.address h.0) (rw (sweep_ascending x ys h.1))

sort_rounds_ascending : (n : ℕ) (xs : List Point) → IsAscending xs → sort_rounds n xs ≡ xs
unfolding sort_rounds
sort_rounds_ascending zero xs h = refl
sort_rounds_ascending (suc n) [] h = refl
sort_rounds_ascending (suc n) (x ∷ xs) h =
    rw (sweep_ascending x xs h.0) (ap (◌∷◌ x) (sort_rounds_ascending n xs h.1))

pub sort_points_by_address_ascending :
    (points : List Point) → IsAscending points → sort_points_by_address points ≡ points
unfolding sort_points_by_address
sort_points_by_address_ascending points h = sort_rounds_ascending (length points) points h
