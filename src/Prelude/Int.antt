-- ===== src/Prelude/Int.antt =====
-- Go's signed integers: a mathematical integer, and the two's complement pattern of each width.
use Prim.Native.Nat.{ℕ, ◌+◌, ◌-◌, ◌%◌, ◌<◌}
use mathlib.Core.Path.{◌≡◌}
use native.Mathlib.Nat.{mod-eq_of_lt}
use native.Mathlib.Omega.{arith}
use mathlib.Core.Logic.{inl, inr}
use mbsscaner.Prelude.Tests.{ltb, if◌then◌else◌, Bool-cases}

-- `negsuc n` is -(n + 1).
pub data ℤ : Type 0 where
  pos : ℕ → ℤ
  negsuc : ℕ → ℤ

-- `intN(u)` of an unsigned value below 2 ^ w; `half` is 2 ^ (w - 1).
abbrev pub signed : ℕ → ℕ → ℤ
signed half u = if ltb u half then pos u else negsuc (half + half - u - 1)

-- `uintN(z)`: the pattern of z modulo 2 ^ w = half + half.
abbrev pub unsigned : ℕ → ℤ → ℕ
unsigned half (pos n) = n % (half + half)
unsigned half (negsuc n) = half + half - 1 - n % (half + half)

-- z is representable at the width.
abbrev pub FitsSigned : ℕ → ℤ → Type 0
FitsSigned half (pos n) = n < half
FitsSigned half (negsuc n) = n < half

pub unsigned-signed : (half u : ℕ) → u < half + half → unsigned half (signed half u) ≡ u
unsigned-signed half u h = ground (
  arith,
  mod-eq_of_lt {n = u} {m = half + half} (omega arith),
  λ (p : half + half - u - 1 < half + half). mod-eq_of_lt p,
)

pub unsigned-lt : (half : ℕ) (z : ℤ) → 0 < half → unsigned half z < half + half
unsigned-lt half (pos n) h = omega arith
unsigned-lt half (negsuc n) h = omega arith

pub signed-unsigned : (half : ℕ) (z : ℤ) → FitsSigned half z → signed half (unsigned half z) ≡ z
signed-unsigned half (pos n) h =
    let e : n % (half + half) ≡ n = mod-eq_of_lt (omega arith) in rw e (ground arith)
signed-unsigned half (negsuc n) h =
    let e : n % (half + half) ≡ n = mod-eq_of_lt (omega arith) in rw e (ground arith)

pub signed-FitsSigned : (half u : ℕ) → u < half + half → FitsSigned half (signed half u)
signed-FitsSigned half u h = elim (Bool-cases (ltb u half)) [
  | inl low ↦ rw low (ground arith)
  | inr high ↦ rw high (ground arith)
]
