-- ===== src/Modbus/Batch/Serves.antt =====
-- A device whose registers and bits do not change while a group is read, as the library's calls
-- show it: what pkg/modbus/collector.go relies on.
use mbsscaner.Prelude.{
  ℕ, zero, suc, ◌+◌, ◌≤◌, ◌<◌, ◌≡◌, refl, List, [], ◌∷◌, ◌++◌, map, arith, ap, length,
}
use mbsscaner.Modbus.Result.{Reply, reply, Result, ok, M}

-- The n values from address a on.
abbrev pub slice {ℓ} : {A : Type ℓ} → (ℕ → A) → ℕ → ℕ → List A
slice mem a zero = []
slice mem a (suc n) = mem a ∷ slice mem (a + 1) n

-- A library call for n values from a on, for 1 to `limit` of them within the 16-bit address
-- space, answers with the device's values and leaves the connection live.
abbrev pub Serves :
    {S A : Type 0} → (S → Type 0) → ℕ → (ℕ → A) → (ℕ → ℕ → S → Reply (List A) × S) → Type 0
Serves {S} Live limit mem read =
    (a n : ℕ) (s : S)
    → Live s
    → 1 ≤ n
    → n ≤ limit
    → a + n ≤ 0x1_0000
    → (s' : S) × (read a n s ≡ (reply (slice mem a n), s')) × Live s'

-- The same of a read in the program, and of a read of one value.
abbrev pub Reads : {S : Type 0} → (S → Type 0) → ℕ → (ℕ → ℕ) → (ℕ → ℕ → M S (List ℕ)) → Type 0
Reads {S} Live limit mem read =
    (a n : ℕ) (s : S)
    → Live s
    → 1 ≤ n
    → n ≤ limit
    → a + n ≤ 0x1_0000
    → (s' : S) × (read a n s ≡ (ok (slice mem a n), s')) × Live s'

abbrev pub ServesOne : {S : Type 0} → (S → Type 0) → (ℕ → ℕ) → (ℕ → S → Reply ℕ × S) → Type 0
ServesOne {S} Live mem read =
    (a : ℕ) (s : S) → Live s → a < 0x1_0000 → (s' : S) × (read a s ≡ (reply (mem a), s')) × Live s'

-- The outcome of reading n registers from a on.
abbrev pub Yields : {S : Type 0} → (S → Type 0) → List ℕ → Result (List ℕ) × S → Type 0
Yields {S} Live regs outcome = (s' : S) × (outcome ≡ (ok regs, s')) × Live s'

module _ {ℓ} {A : Type ℓ} where
  pub length-slice : (mem : ℕ → A) (a n : ℕ) → length (slice mem a n) ≡ n
  length-slice mem a zero = refl
  length-slice mem a (suc n) = ap suc (length-slice mem (a + 1) n)

  pub slice-append :
      (mem : ℕ → A) (a m n b k : ℕ)
      → a + m ≡ b
      → m + n ≡ k
      → slice mem a m ++ slice mem b n ≡ slice mem a k
  slice-append mem a zero n b k e f =
      let e' : b ≡ a = omega arith in let f' : n ≡ k = omega arith in rw (e', f') refl
  slice-append mem a (suc m) n b zero e f = absurd (omega arith)
  slice-append mem a (suc m) n b (suc k) e f =
      ap (◌∷◌ (mem a)) (slice-append mem (a + 1) m n b k (omega arith) (omega arith))

pub map-slice {ℓ κ} :
    {A : Type ℓ} {B : Type κ} (f : A → B) (mem : ℕ → A) (a n : ℕ)
    → map f (slice mem a n) ≡ slice (λ i. f (mem i)) a n
map-slice f mem a zero = refl
map-slice f mem a (suc n) = ap (◌∷◌ (f (mem a))) (map-slice f mem (a + 1) n)
