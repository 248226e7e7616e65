-- ===== src/Config/Load/Formed.antt =====
-- What holds of the points that `LoadPoints` returns (config/points.go).
use mbsscaner.Prelude.{
  ℕ, ◌+◌, ◌-◌, ◌*◌, ◌≤◌, ◌<◌, ◌≡◌, ◌≢◌, subst, refl, String, str_eq, eq_iff, Bool, true, false,
  List, [], ◌∷◌, Option, none, some, arith, Bool-cases, inl, inr, if◌then◌else◌, lookup, All,
}
use mbsscaner.Config.Types.{
  DataType, RegisterType, Point, is_valid_data_type, is_valid_register_type,
}
use mbsscaner.Config.Text.{parse_uint, scan_uint}
use mbsscaner.Config.Load.{
  name_required, address_required, data_type_required, invalid_address, invalid_data_type,
  invalid_register_type, RecordError, LoadError, Parsed, parsed, refused, ◌>>=◌, given, required,
  number, default_length, parse_data_type, parse_register_type, parse_length, parse_scale,
  parse_fields, field_map, parse_point_record, parse_rows, then_points, load_points, is_blank,
  checked_data_type, checked_register_type, some_points, with_columns,
}
use Prim.Native.Char.{Char, code}

-- The point has a name, an address and a length of 16 bits, and types that the program knows.
pub record IsFormed (p : Point) : Type 0 where
  pub named : p.name ≢ ""
  pub address_bound : p.address < 0x1_0000
  pub length_bound : p.length < 0x1_0000
  pub known_data_type : is_valid_data_type p.data_type ≡ true
  pub known_register_type : is_valid_register_type p.register_type ≡ true

-- A property of the value, if there is one.
abbrev pub Ensures {ℓ κ} : {E : Type 0} {A : Type ℓ} → (A → Type κ) → Parsed E A → Type κ
Ensures P (parsed a) = P a
Ensures P (refused e) = Unit

pub bind-Ensures {ℓ κ ι ο} :
    {E : Type 0} {A : Type ℓ} {B : Type κ} (Q : A → Type ι) (P : B → Type ο) (m : Parsed E A)
    (f : A → Parsed E B)
    → Ensures Q m
    → ((a : A) → Q a → Ensures P (f a))
    → Ensures P (m >>= f)
bind-Ensures Q P (parsed a) f h k = k a h
bind-Ensures Q P (refused e) f h k = tt

pub no_claim {ℓ} : {E : Type 0} {A : Type ℓ} (m : Parsed E A) → Ensures (λ a. Unit {0}) m
no_claim (parsed a) = tt
no_claim (refused e) = tt

scan_uint-bound : (s : String) (n r : ℕ) → n ≤ 0xffff → scan_uint s n ≡ some r → r ≤ 0xffff
unfolding scan_uint
scan_uint-bound String.[] n r h e = ground arith
scan_uint-bound (String.◌∷◌ c s) n r h e =
    ground (arith, scan_uint-bound s (n * 10 + (code c - b'0')) r)

parse_uint-bound : (s : String) (r : ℕ) → parse_uint s ≡ some r → r < 0x1_0000
unfolding parse_uint
parse_uint-bound String.[] r e = cc
parse_uint-bound (String.◌∷◌ c s) r e =
    omega (arith, scan_uint-bound (String.◌∷◌ c s) 0 r (omega arith) e)

given-Ensures :
    (e : RecordError) (k : String) (m : List (String × String))
    → Ensures (λ v. v ≢ "") (required e (given k m))
unfolding given
given-Ensures e k m = go (lookup k m)
  where
    kept :
        (w : String) (b : Bool)
        → str_eq w "" ≡ b
        → Ensures (λ v. v ≢ "") (required e (if b then none else some w))
    kept w true h = tt
    kept w false h = λ same. cc ((eq_iff w "").1 same)

    go :
        (o : Option String)
        → Ensures
            (λ v. v ≢ "")
            (required e (elim o [ none ↦ none | some w ↦ if str_eq w "" then none else some w ]))
    go none = tt
    go (some w) = kept w (str_eq w "") refl

parse_uint-Ensures :
    (e : RecordError) (s : String) → Ensures (λ n. n < 0x1_0000) (number e (parse_uint s))
parse_uint-Ensures e s = go (parse_uint s) refl
  where
    go : (o : Option ℕ) → parse_uint s ≡ o → Ensures (λ n. n < 0x1_0000) (number e o)
    go none h = tt
    go (some n) h = parse_uint-bound s n h

checked_data_type-Ensures :
    (t : DataType) → Ensures (λ u. is_valid_data_type u ≡ true) (checked_data_type t)
checked_data_type-Ensures t = go (is_valid_data_type t) refl
  where
    go :
        (b : Bool)
        → is_valid_data_type t ≡ b
        → Ensures
            (λ u. is_valid_data_type u ≡ true)
            (if b then parsed t else refused invalid_data_type)
    go true h = h
    go false h = tt

checked_register_type-Ensures :
    (t : RegisterType) → Ensures (λ u. is_valid_register_type u ≡ true) (checked_register_type t)
checked_register_type-Ensures t = go (is_valid_register_type t) refl
  where
    go :
        (b : Bool)
        → is_valid_register_type t ≡ b
        → Ensures
            (λ u. is_valid_register_type u ≡ true)
            (if b then parsed t else refused invalid_register_type)
    go true h = h
    go false h = tt

default_length-bound : (t : DataType) → default_length t < 0x1_0000
unfolding default_length
default_length-bound (DataType.other s) = omega arith
default_length-bound DataType.int16 = omega arith
default_length-bound _ = omega arith

module _ (lower_rune : Char → Char) (parse_float : String → Option ℕ) where
  parse_register_type-Ensures :
      (o : Option String)
      → Ensures
          (λ t. is_valid_register_type t ≡ true)
          (parse_register_type lower_rune parse_float o)
  unfolding parse_register_type
  parse_register_type-Ensures none = refl
  parse_register_type-Ensures (some s) = checked_register_type-Ensures _

  parse_length-Ensures :
      (t : DataType) (o : Option String)
      → Ensures (λ n. n < 0x1_0000) (parse_length lower_rune parse_float t o)
  unfolding parse_length
  parse_length-Ensures t none = default_length-bound t
  parse_length-Ensures t (some s) = parse_uint-Ensures _ s

  pub parse_data_type-Ensures :
      (s : String)
      → Ensures (λ t. is_valid_data_type t ≡ true) (parse_data_type lower_rune parse_float s)
  unfolding parse_data_type
  parse_data_type-Ensures s = checked_data_type-Ensures _

  parse_fields-IsFormed :
      (m : List (String × String)) → Ensures IsFormed (parse_fields lower_rune parse_float m)
  unfolding parse_fields
  parse_fields-IsFormed m =
      bind-Ensures (λ v. v ≢ "") IsFormed _ _ (given-Ensures name_required "name" m)
        λ name named.
          bind-Ensures (λ v. v ≢ "") IsFormed _ _ (given-Ensures address_required "address" m)
            λ at _.
              bind-Ensures (λ n. n < 0x1_0000) IsFormed _ _ (parse_uint-Ensures invalid_address at)
                λ a low.
                  bind-Ensures (λ v. v ≢ "") IsFormed _ _
                    (given-Ensures data_type_required "data_type" m)
                    λ ty _.
                      bind-Ensures (λ t. is_valid_data_type t ≡ true) IsFormed _ _
                        (parse_data_type-Ensures ty)
                        λ t known.
                          bind-Ensures (λ u. is_valid_register_type u ≡ true) IsFormed _ _
                            (parse_register_type-Ensures (given "register_type" m))
                            λ u table.
                              bind-Ensures (λ n. n < 0x1_0000) IsFormed _ _
                                (parse_length-Ensures t (given "length" m))
                                λ n short.
                                  bind-Ensures (λ k. Unit {0}) IsFormed
                                    (parse_scale lower_rune parse_float (given "scale" m)) _
                                    (no_claim _)
                                    λ k _. record {
                                      named = named;
                                      address_bound = low;
                                      length_bound = short;
                                      known_data_type = known;
                                      known_register_type = table;
                                    }

  then_points-IsFormed :
      (i : ℕ) (p : Parsed RecordError Point) (ps : Parsed LoadError (List Point))
      → Ensures IsFormed p
      → Ensures (All IsFormed) ps
      → Ensures (All IsFormed) (then_points lower_rune parse_float i p ps)
  then_points-IsFormed i (refused e) ps h k = tt
  then_points-IsFormed i (parsed p) (refused e) h k = tt
  then_points-IsFormed i (parsed p) (parsed ps) h k = (h, k)

  parse_rows-IsFormed :
      (i : ℕ) (header : List String) (rows : List (List String))
      → Ensures (All IsFormed) (parse_rows lower_rune parse_float i header rows)
  unfolding parse_rows parse_point_record
  parse_rows-IsFormed i header [] = tt
  parse_rows-IsFormed i header (r ∷ rs) = elim (Bool-cases (is_blank lower_rune parse_float r)) [
    | inl blank ↦ rw blank (parse_rows-IsFormed (i + 1) header rs)
    | inr full ↦ rw full (
        then_points-IsFormed i _ _
          (parse_fields-IsFormed (field_map lower_rune parse_float header r []))
          (parse_rows-IsFormed (i + 1) header rs))
  ]

  with_columns-Ensures :
      (P : List Point → Type 0) (o : Option String) (ps : Parsed LoadError (List Point))
      → Ensures P ps
      → Ensures P (with_columns lower_rune parse_float o ps)
  with_columns-Ensures P none ps h = h
  with_columns-Ensures P (some k) ps h = tt

  abbrev pub IsLoaded : List Point → Type 0
  IsLoaded ps = All IsFormed ps × (ps ≢ [])

  some_points-Ensures :
      (ps : List Point) → All IsFormed ps → Ensures IsLoaded (some_points lower_rune parse_float ps)
  some_points-Ensures [] h = tt
  some_points-Ensures (p ∷ ps) h = (h, λ e. cc)

  load_points-Ensures :
      (file : Option (List (List String)))
      → Ensures IsLoaded (load_points lower_rune parse_float file)
  unfolding load_points
  load_points-Ensures none = tt
  load_points-Ensures (some []) = tt
  load_points-Ensures (some (header ∷ [])) = tt
  load_points-Ensures (some (header ∷ row ∷ rows)) = with_columns-Ensures IsLoaded _ _ (
      bind-Ensures (All IsFormed) IsLoaded _ _ (parse_rows-IsFormed 2 header (row ∷ rows))
        some_points-Ensures)

  Ensures-parsed :
      (P : List Point → Type 0) (m : Parsed LoadError (List Point)) (ps : List Point)
      → Ensures P m
      → m ≡ parsed ps
      → P ps
  Ensures-parsed P m ps h e = subst (Ensures P) e h

  -- Whatever the file holds, `LoadPoints` returns an error or at least one point, and every point
  -- has a name, an address and a length that fit 16 bits, a data type and a register type of those
  -- that the program knows.
  pub load_points-IsFormed :
      (file : Option (List (List String))) (points : List Point)
      → load_points lower_rune parse_float file ≡ parsed points
      → All IsFormed points × (points ≢ [])
  load_points-IsFormed file points e =
      Ensures-parsed IsLoaded (load_points lower_rune parse_float file) points
        (load_points-Ensures file) e
