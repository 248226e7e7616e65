-- ===== src/Prelude/Maps.antt =====
-- Go maps with string keys, as association lists in which a key stands once.
use mathlib.Core.Path.{◌≡◌, refl, ap}
use mathlib.Core.Logic.{inl, inr}
use mathlib.Core.Bool.{true, false}
use mathlib.Core.Option.{Option, none, some}
use mathlib.Core.List.{List, [], ◌∷◌}
use Prim.Native.String.{String}
use text.Mathlib.Text.{◌==◌ as str_eq}
use text.Mathlib.TextEquality.{eq_iff}
use mbsscaner.Prelude.Tests.{if◌then◌else◌, Bool-cases}

pub str_eq_refl : (s : String) → str_eq s s ≡ true
str_eq_refl s = (eq_iff s s).1 refl

module _ {ℓ} {A : Type ℓ} where
  -- `m[k]`.
  abbrev pub lookup : String → List (String × A) → Option A
  lookup k [] = none
  lookup k ((j, x) ∷ m) = if str_eq j k then some x else lookup k m

  -- `m[k] = x`.
  abbrev pub put : String → A → List (String × A) → List (String × A)
  put k x [] = (k, x) ∷ []
  put k x ((j, y) ∷ m) = if str_eq j k then (k, x) ∷ m else (j, y) ∷ put k x m

  pub lookup-put_self : (k : String) (x : A) (m : List (String × A)) → lookup k (put k x m) ≡ some x
  lookup-put_self k x [] = rw (str_eq_refl k) refl
  lookup-put_self k x ((j, y) ∷ m) = elim (Bool-cases (str_eq j k)) [
    | inl same ↦ rw same (rw (str_eq_refl k) refl)
    | inr off ↦ rw off (rw off (lookup-put_self k x m))
  ]

  pub lookup-put_other :
      (k l : String) (x : A) (m : List (String × A))
      → str_eq k l ≡ false
      → lookup l (put k x m) ≡ lookup l m
  lookup-put_other k l x [] h = rw h refl
  lookup-put_other k l x ((j, y) ∷ m) h = elim (Bool-cases (str_eq j k)) [
    | inl same ↦ let e : j ≡ k = (eq_iff j k).0 same in rw same (rw e (rw h refl))
    | inr off ↦ rw off (ap (λ t. if str_eq j l then some y else t) (lookup-put_other k l x m h))
  ]
