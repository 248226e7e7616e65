-- ===== src/Modbus/Collector/Shared/Consistent.antt =====
-- The two mutexes of a `Collector` (pkg/modbus/collector.go) and what a step of one user does to them.
use mbsscaner.Prelude.{
  ℕ, ◌≡◌, ◌≢◌, ◌≤◌, refl, sym, ◌∙◌, subst, Bool, true, false, Option, none, some, ◌==◌, ==_iff,
  Bool-cases, inl, inr, ◌⊎◌, arith,
}
use mbsscaner.Modbus.Collector.{Collector}
use mbsscaner.Modbus.Collector.Shared.{
  Phase, idle, checking, lost, ensured, working, stopping, opening, testing, closing, retrying,
  Shared, set_phase, goto,
}

-- The count of failures is 0 while the flag is set.
abbrev pub IsFresh : {Conn : Type 0} → Collector Conn → Type 0
IsFresh c = c.connected ≡ true → c.retry_count ≡ 0

-- Between `c.opMutex.Lock()` and `c.opMutex.Unlock()`.
abbrev pub in_operation : Phase → Bool
in_operation working = true
in_operation _ = false

-- Between `c.stateMutex.Lock()` and `c.stateMutex.Unlock()`.
abbrev pub in_state : Phase → Bool
in_state (opening n) = true
in_state (testing n) = true
in_state (closing n e) = true
in_state stopping = true
in_state _ = false

abbrev pub attempts_left : Phase → ℕ
attempts_left (opening n) = n
attempts_left (testing n) = n
attempts_left (closing n e) = n
attempts_left (retrying n e) = n
attempts_left _ = 0

-- What the flag is in a phase that holds `stateMutex`.
abbrev pub FlagIn : Phase → Bool → Type 0
FlagIn (opening n) b = b ≡ false
FlagIn (testing n) b = b ≡ false
FlagIn (closing n e) b = b ≡ false
FlagIn stopping b = b ≡ true
FlagIn _ b = Unit

-- Goroutine `i` holds a mutex exactly if it is inside.
abbrev pub HeldBy : Option ℕ → ℕ → Bool → Type 0
HeldBy holder i inside = (holder ≡ some i → inside ≡ true) × (inside ≡ true → holder ≡ some i)

-- The invariant.
pub record IsConsistent {Conn : Type 0} (s : Shared Conn) : Type 0 where
  pub fresh : IsFresh s.collector
  pub operation : (i : ℕ) → HeldBy s.holder i (in_operation (s.phase i))
  pub state : (i : ℕ) → HeldBy s.state_holder i (in_state (s.phase i))
  pub attempts : (i : ℕ) → attempts_left (s.phase i) ≤ s.collector.max_retries
  pub flag : (i : ℕ) → FlagIn (s.phase i) s.collector.connected

-- What a step of goroutine `i` does to a mutex, with whether it is inside before and after.
pub data Turn (i : ℕ) : Bool → Bool → Option ℕ → Option ℕ → Type 0 where
  stays : {b : Bool} {o : Option ℕ} → Turn i b b o o
  takes : {o : Option ℕ} → o ≡ none → Turn i false true o (some i)
  gives : {o : Option ℕ} → Turn i true false o none

Turn-self :
    (i : ℕ) {b b' : Bool} {o o' : Option ℕ} → Turn i b b' o o' → HeldBy o i b → HeldBy o' i b'
Turn-self i stays h = h
Turn-self i (takes e) h = (λ _. refl, λ _. refl)
Turn-self i gives h = (λ k. cc k, λ k. cc k)

pub some_injective : {i j : ℕ} → some i ≡ some j → i ≡ j
some_injective e = cc e

Turn-other :
    (i j : ℕ) {b b' c : Bool} {o o' : Option ℕ}
    → Turn i b b' o o'
    → HeldBy o i b
    → i ≢ j
    → HeldBy o j c
    → HeldBy o' j c
Turn-other i j stays h d k = k
Turn-other i j (takes e) h d k = (λ x. absurd (d (some_injective x)), λ x. absurd (cc (e, k.1 x)))
Turn-other i j gives h d k = (λ x. cc x, λ x. absurd (d (some_injective (sym (h.1 refl) ∙ k.1 x))))

-- A property of every goroutine, after one of them moved.
set_phase-all :
    (P : ℕ → Phase → Type 0) (i : ℕ) (p : Phase) (phase : ℕ → Phase)
    → P i p
    → ((j : ℕ) → i ≢ j → P j (phase j))
    → (j : ℕ) → P j (set_phase i p phase j)
unfolding set_phase
set_phase-all P i p phase new old j = elim (Bool-cases (i == j)) [
  | inl same ↦ let e : i ≡ j = (==_iff i j).0 same in rw same (subst (λ k. P k p) e new)
  | inr differs ↦ rw differs (old j (λ e. absurd (ground arith)))
]

-- Outside `stateMutex` the flag may be anything.
FlagIn-outside : (p : Phase) (b : Bool) → in_state p ≢ true → FlagIn p b
FlagIn-outside (opening n) b h = absurd (h refl)
FlagIn-outside (testing n) b h = absurd (h refl)
FlagIn-outside (closing n e) b h = absurd (h refl)
FlagIn-outside stopping b h = absurd (h refl)
FlagIn-outside idle b h = tt
FlagIn-outside checking b h = tt
FlagIn-outside lost b h = tt
FlagIn-outside ensured b h = tt
FlagIn-outside working b h = tt
FlagIn-outside (retrying n e) b h = tt

module _ {Conn : Type 0} where
  -- The flag stays, or no other goroutine holds `stateMutex`.
  abbrev pub Undisturbed : ℕ → Shared Conn → Collector Conn → Type 0
  Undisturbed i s c =
      (c.connected ≡ s.collector.connected) ⊎ ((j : ℕ) → i ≢ j → s.state_holder ≢ some j)

  FlagIn-other :
      (i j : ℕ) (s : Shared Conn) (c : Collector Conn)
      → IsConsistent s
      → Undisturbed i s c
      → i ≢ j
      → FlagIn (s.phase j) c.connected
  FlagIn-other i j s c inv (inl e) d = subst (FlagIn (s.phase j)) (sym e) (inv.flag j)
  FlagIn-other i j s c inv (inr h) d =
      FlagIn-outside (s.phase j) c.connected λ e. h j d ((inv.state j).1 e)

  -- Goroutine `i` goes from phase `p` to phase `q`.
  pub move-IsConsistent :
      (i : ℕ) (p q : Phase) (s : Shared Conn) (c : Collector Conn) (o m : Option ℕ)
      → IsConsistent s
      → s.phase i ≡ p
      → c.max_retries ≡ s.collector.max_retries
      → Turn i (in_operation p) (in_operation q) s.holder o
      → Turn i (in_state p) (in_state q) s.state_holder m
      → IsFresh c
      → attempts_left q ≤ s.collector.max_retries
      → FlagIn q c.connected
      → Undisturbed i s c
      → IsConsistent
          (goto i q (record { collector = c; holder = o; state_holder = m; phase = s.phase }))
  move-IsConsistent i p q s c o m inv at limit op st fresh left flag calm =
      let op_held : HeldBy s.holder i (in_operation p) =
        subst (λ x. HeldBy s.holder i (in_operation x)) at (inv.operation i) in
      let st_held : HeldBy s.state_holder i (in_state p) =
        subst (λ x. HeldBy s.state_holder i (in_state x)) at (inv.state i) in
      record {
        fresh = fresh;
        operation =
            set_phase-all (λ j x. HeldBy o j (in_operation x)) i q s.phase (Turn-self i op op_held)
              λ j d. Turn-other i j op op_held d (inv.operation j);
        state =
            set_phase-all (λ j x. HeldBy m j (in_state x)) i q s.phase (Turn-self i st st_held)
              λ j d. Turn-other i j st st_held d (inv.state j);
        attempts =
            subst (λ n. (j : ℕ) → attempts_left (set_phase i q s.phase j) ≤ n) (sym limit)
              (set_phase-all (λ j x. attempts_left x ≤ s.collector.max_retries) i q s.phase left
                λ j d. inv.attempts j);
        flag =
            set_phase-all (λ j x. FlagIn x c.connected) i q s.phase flag
              λ j d. FlagIn-other i j s c inv calm d;
      }

  pub attempts_at :
      (i : ℕ) (p : Phase) (s : Shared Conn)
      → IsConsistent s
      → s.phase i ≡ p
      → attempts_left p ≤ s.collector.max_retries
  attempts_at i p s inv h =
      subst (λ x. attempts_left x ≤ s.collector.max_retries) h (inv.attempts i)

  pub flag_at :
      (i : ℕ) (p : Phase) (s : Shared Conn)
      → IsConsistent s
      → s.phase i ≡ p
      → FlagIn p s.collector.connected
  flag_at i p s inv h = subst (λ x. FlagIn x s.collector.connected) h (inv.flag i)

  -- A goroutine that is inside keeps the others out of `stateMutex`.
  pub alone_inside :
      (i : ℕ) (p : Phase) (s : Shared Conn)
      → IsConsistent s
      → s.phase i ≡ p
      → in_state p ≡ true
      → (j : ℕ) → i ≢ j
      → s.state_holder ≢ some j
  alone_inside i p s inv h inside j d k =
      let held : s.state_holder ≡ some i =
        (inv.state i).1 (subst (λ x. in_state x ≡ true) (sym h) inside) in
      d (some_injective (sym held ∙ k))
