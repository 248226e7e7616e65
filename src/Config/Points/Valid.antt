-- ===== src/Config/Points/Valid.antt =====
-- What `ValidatePoints` (config/points.go) accepts.
use mbsscaner.Prelude.{
  ℕ, ◌+◌, ◌≤◌, ◌≡◌, ◌≢◌, refl, ap, ap₂, All-map, All-map2, String, str_eq, eq_iff, List, [], ◌∷◌,
  Bool, true, false, none, ◌==◌, ==_iff, arith, All, Bool-cases, inl, inr, ◌↔◌,
}
use mbsscaner.Config.Types.{Point, register_type_eq, register_type_eq_sound, register_type_eq_refl}
use mbsscaner.Config.Points.{
  Key, key_of, key_eq, has_name, has_key, is_zero_scale, validate_from, validate_points,
}

-- A point that is acceptable by itself.
pub record IsSound (p : Point) : Type 0 where
  pub named : p.name ≢ ""
  pub has_length : 1 ≤ p.length
  pub scaled : is_zero_scale p.scale ≡ false

-- Two points do not share a name, nor an address of one register type.
abbrev pub NoClash : Point → Point → Type 0
NoClash p q = (p.name ≢ q.name) × (key_of p ≢ key_of q)

abbrev pub AllPairs : List Point → Type 0
AllPairs [] = Unit
AllPairs (p ∷ ps) = All (NoClash p) ps × AllPairs ps

-- The configuration that the checks are meant to let through.
pub record IsValid (points : List Point) : Type 0 where
  pub nonempty : points ≢ []
  pub sound : All IsSound points
  pub distinct : AllPairs points

key_eq_iff : (j k : Key) → (key_eq j k ≡ true) ↔ (j ≡ k)
unfolding key_eq
key_eq_iff (a, t) (b, u) = (
  λ h.
      let both : ((a == b) ≡ true) × (register_type_eq t u ≡ true) = ground arith in
      ap₂ (λ x y. (x, y)) ((==_iff a b).0 both.0) (register_type_eq_sound t u both.1),
  λ h.
      let addresses : a ≡ b = ap (λ (k : Key). k.0) h in
      let types : t ≡ u = ap (λ (k : Key). k.1) h in
      rw ((==_iff a b).1 addresses) (rw (← types) (register_type_eq_refl t)),
)

ne_of_eq_false : {A : Type 0} (b : Bool) (x y : A) → ((b ≡ true) ↔ (x ≡ y)) → b ≡ false → x ≢ y
ne_of_eq_false b x y iff h e = cc (iff.1 e)

eq_false_of_ne : {A : Type 0} (b : Bool) (x y : A) → ((b ≡ true) ↔ (x ≡ y)) → x ≢ y → b ≡ false
eq_false_of_ne b x y iff h = elim (Bool-cases b) [ inl e ↦ absurd (h (iff.0 e)) | inr e ↦ e ]

-- What the loop knows of a point before it has seen the earlier ones' names and keys.
abbrev Fresh : List String → List Key → Point → Type 0
Fresh names keys p = (has_name names p.name ≡ false) × (has_key keys (key_of p) ≡ false)

Fresh-cons :
    (names : List String) (keys : List Key) (p q : Point)
    → Fresh (p.name ∷ names) (key_of p ∷ keys) q ↔ (NoClash p q × Fresh names keys q)
unfolding has_name has_key
Fresh-cons names keys p q = (
  λ h.
      let name : (str_eq p.name q.name ≡ false) × (has_name names q.name ≡ false) = ground arith in
      let key : (key_eq (key_of p) (key_of q) ≡ false) × (has_key keys (key_of q) ≡ false) =
        ground arith in
      (
        (
          ne_of_eq_false _ _ _ (eq_iff p.name q.name) name.0,
          ne_of_eq_false _ _ _ (key_eq_iff (key_of p) (key_of q)) key.0,
        ),
        (name.1, key.1),
      ),
  λ h.
      let name = eq_false_of_ne _ _ _ (eq_iff p.name q.name) h.0.0 in
      let key = eq_false_of_ne _ _ _ (key_eq_iff (key_of p) (key_of q)) h.0.1 in
      (rw name h.1.0, rw key h.1.1),
)

-- A point that the body of the loop lets pass.
abbrev Passes : List String → List Key → Point → Type 0
Passes names keys p =
    (str_eq p.name "" ≡ false)
    × ((p.length == 0) ≡ false)
    × (is_zero_scale p.scale ≡ false)
    × Fresh names keys p

validate_from-cons :
    (i : ℕ) (names : List String) (keys : List Key) (p : Point) (ps : List Point)
    → (validate_from i names keys (p ∷ ps) ≡ none)
      ↔ (Passes names keys p × (validate_from (i + 1) (p.name ∷ names) (key_of p ∷ keys) ps ≡ none))
unfolding validate_from
validate_from-cons i names keys p ps = (λ h. ground arith, λ h. ground arith)

Passes-IsSound :
    (names : List String) (keys : List Key) (p : Point)
    → Passes names keys p ↔ (IsSound p × Fresh names keys p)
Passes-IsSound names keys p = (
  λ h. (
    record {
      named = ne_of_eq_false _ _ _ (eq_iff p.name "") h.0;
      has_length = ground arith;
      scaled = h.2;
    },
    h.3,
  ),
  λ h. (eq_false_of_ne _ _ _ (eq_iff p.name "") h.0.named, ground arith, h.0.scaled, h.1),
)

-- What the loop accepts, with the names and keys that it has already entered.
abbrev Accepts : List String → List Key → List Point → Type 0
Accepts names keys ps = All IsSound ps × AllPairs ps × All (Fresh names keys) ps

validate_from_sound :
    (i : ℕ) (names : List String) (keys : List Key) (ps : List Point)
    → validate_from i names keys ps ≡ none
    → Accepts names keys ps
validate_from_sound i names keys [] h = (tt, tt, tt)
validate_from_sound i names keys (p ∷ ps) h =
    let (passes, more) = (validate_from-cons i names keys p ps).0 h in
    let (sound, fresh) = (Passes-IsSound names keys p).0 passes in
    let (sounds, pairs, freshes) =
      validate_from_sound (i + 1) (p.name ∷ names) (key_of p ∷ keys) ps more in
    let split = Fresh-cons names keys p in
    (
      (sound, sounds),
      (All-map _ _ ps (λ q f. ((split q).0 f).0) freshes, pairs),
      (fresh, All-map _ _ ps (λ q f. ((split q).0 f).1) freshes),
    )

validate_from_complete :
    (i : ℕ) (names : List String) (keys : List Key) (ps : List Point)
    → Accepts names keys ps
    → validate_from i names keys ps ≡ none
unfolding validate_from
validate_from_complete i names keys [] h = refl
validate_from_complete i names keys (p ∷ ps) h =
    let split = Fresh-cons names keys p in
    let fresh : All (Fresh (p.name ∷ names) (key_of p ∷ keys)) ps =
      All-map2 _ _ _ ps (λ q c f. (split q).1 (c, f)) h.1.0 h.2.1 in
    let more =
      validate_from_complete (i + 1) (p.name ∷ names) (key_of p ∷ keys) ps (h.0.1, h.1.1, fresh) in
    (validate_from-cons i names keys p ps).1 ((Passes-IsSound names keys p).1 (h.0.0, h.2.0), more)

nothing_seen : (ps : List Point) → All (Fresh [] []) ps
unfolding has_name has_key
nothing_seen [] = tt
nothing_seen (p ∷ ps) = ((refl, refl), nothing_seen ps)

-- `ValidatePoints` returns no error exactly for the lists it is meant to accept: there is a point;
-- each point has a name, a register and a scale other than zero; and no two points share a name,
-- or an address of the same register type.
pub validate_points_iff : (points : List Point) → (validate_points points ≡ none) ↔ IsValid points
unfolding validate_points
validate_points_iff [] = (λ h. cc, λ h. absurd (h.nonempty refl))
validate_points_iff (p ∷ ps) = (
  λ h.
      let (sound, pairs, _) = validate_from_sound 0 [] [] (p ∷ ps) h in
      record { nonempty = λ e. cc; sound = sound; distinct = pairs },
  λ h. validate_from_complete 0 [] [] (p ∷ ps) (h.sound, h.distinct, nothing_seen (p ∷ ps)),
)
