-- ===== src/Modbus/Batch/Sized.antt =====
-- How many registers the batch reads of pkg/modbus/collector.go return, whatever fails on the way.
use mbsscaner.Prelude.{
  ℕ, zero, suc, ◌+◌, ◌-◌, ◌%◌, ◌≤◌, ◌≡◌, refl, ap, ◌∙◌, subst, List, [], ◌∷◌, map, Bool, true,
  false, arith, ltb, length, length-append, length-map, if◌then◌else◌,
}
use mbsscaner.Config.Types.{RegisterType, Point}
use mbsscaner.Modbus.Result.{
  Result, ok, err, panics, Reply, reply, refused, Error, M, then_run, recover, on_error, call,
  of_reply, return,
}
use mbsscaner.Modbus.Client.{Client, RegType, input, holding}
use mbsscaner.Modbus.Grouping.{BatchGroup}
use mbsscaner.Modbus.Batch.{
  get_modbus_register_type, split_loop, read_each, read_coil_batch, read_discrete_input_batch,
  read_input_register_batch, read_holding_register_batch, read_coil_batch_split,
  read_discrete_input_batch_split, read_input_register_batch_split,
  read_holding_register_batch_split, coils_as_registers, discrete_inputs_as_registers, registers_of,
  read_points, read_batch_individual, read_batch_as, read_batch, register_of_bit, max_coil_read,
  max_discrete_input_read, max_input_register_read, max_holding_register_read, lift,
}
use mbsscaner.Modbus.Batch.Split.{next_batch, next_batch_bounds}

-- No panic, and a property of the value if there is no error.
abbrev pub Safe {ℓ} : {S : Type 0} {A : Type ℓ} → (A → Type 0) → Result A × S → Type 0
Safe P (ok a, s) = P a
Safe P (err e, s) = Unit
Safe P (panics, s) = ⊥

module _ {S A B : Type 0} where
  pub then_run-Safe :
      (Q : A → Type 0) (P : B → Type 0) (r : Result A × S) (f : A → S → Result B × S)
      → Safe Q r
      → ((a : A) (s : S) → Q a → Safe P (f a s))
      → Safe P (then_run r f)
  then_run-Safe Q P (ok a, s) f h k = k a s h
  then_run-Safe Q P (err e, s) f h k = tt
  then_run-Safe Q P (panics, s) f h k = h

module _ {S A : Type 0} where
  pub on_error-Safe :
      (P : A → Type 0) (r : Result A × S) (h : Error → S → Result A × S)
      → Safe P r
      → ((e : Error) (s : S) → Safe P (h e s))
      → Safe P (on_error r h)
  on_error-Safe P (ok a, s) h k l = k
  on_error-Safe P (err e, s) h k l = l e s
  on_error-Safe P (panics, s) h k l = k

-- The answer of a library call has a property, if there is one.
abbrev pub Answers {ℓ} : {S : Type 0} {A : Type ℓ} → (A → Type 0) → Reply A × S → Type 0
Answers P (reply a, s) = P a
Answers P (refused e, s) = Unit

of_reply-Safe :
    {S A : Type 0} (P : A → Type 0) (r : Reply A × S) → Answers P r → Safe P (of_reply r)
of_reply-Safe P (reply a, s) h = h
of_reply-Safe P (refused e, s) h = tt

-- The library answers a read with as many values as were asked for, or refuses it.
pub record Honest (client : Client) : Type 0 where
  pub coils :
      (a n : ℕ) (w : client.Conn) → Answers (λ bits. length bits ≡ n) (client.read_coils a n w)
  pub discrete_inputs :
      (a n : ℕ) (w : client.Conn)
      → Answers (λ bits. length bits ≡ n) (client.read_discrete_inputs a n w)
  pub registers :
      (a n : ℕ) (t : RegType) (w : client.Conn)
      → Answers (λ (regs : List ℕ). length regs ≡ n) (client.read_registers a n t w)

-- The registers of all points together.
abbrev pub lengths : List Point → ℕ
lengths [] = 0
lengths (p ∷ ps) = p.length + lengths ps

abbrev pub Sized : {S : Type 0} → ℕ → Result (List ℕ) × S → Type 0
Sized n r = Safe (λ (regs : List ℕ). length regs ≡ n) r

pub split_loop-Sized :
    {S : Type 0} (read : ℕ → ℕ → M S (List ℕ)) (max_read : ℕ)
    → 1 ≤ max_read
    → ((a n : ℕ) (s : S) → Sized n (read a n s))
    → (rounds start n : ℕ) (s : S) → n ≤ rounds
    → Sized n (split_loop read max_read rounds start n s)
unfolding split_loop
split_loop-Sized read max_read pos reads zero start zero s h = refl
split_loop-Sized read max_read pos reads zero start (suc n) s h = absurd (omega arith)
split_loop-Sized read max_read pos reads (suc rounds) start zero s h = refl
split_loop-Sized read max_read pos reads (suc rounds) start (suc n) s h =
    let b = next_batch max_read (suc n) in
    let (pos_b, (le_max, le_n)) = next_batch_bounds max_read n pos in
    then_run-Safe (λ (regs : List ℕ). length regs ≡ b) (λ (regs : List ℕ). length regs ≡ suc n) _ _
      (reads start b s)
      λ head s' eh.
        then_run-Safe (λ (regs : List ℕ). length regs ≡ suc n - b)
          (λ (regs : List ℕ). length regs ≡ suc n) _ _
          (split_loop-Sized read max_read pos reads rounds ((start + b) % 0x1_0000) (suc n - b) s'
            (omega arith))
          λ tail s'' et. omega (arith, length-append {0} head tail)

read_each-Sized :
    {S : Type 0} (f : ℕ → S → Reply ℕ × S) (n a : ℕ) (s : S)
    → Sized n (read_each (λ i. call (f i)) n a s)
unfolding read_each
read_each-Sized f zero a s = refl
read_each-Sized {S} f (suc n) a s =
    then_run-Safe (λ v. Unit {0}) (λ (regs : List ℕ). length regs ≡ suc n) _ _
      (of_reply-Safe (λ v. Unit {0}) (f a s) (anything (f a s)))
      λ v s' _.
        then_run-Safe (λ (regs : List ℕ). length regs ≡ n) (λ (regs : List ℕ). length regs ≡ suc n)
          _ _ (read_each-Sized f n ((a + 1) % 0x1_0000) s') λ rest s'' e. ap suc e
  where
    anything : (r : Reply ℕ × S) → Answers (λ v. Unit {0}) r
    anything (reply v, t) = tt
    anything (refused e, t) = tt

bits-Sized :
    {S : Type 0} (n : ℕ) (r : Reply (List Bool) × S)
    → Answers (λ bits. length bits ≡ n) r
    → Sized n (then_run (of_reply r) λ bits. return (map register_of_bit bits))
bits-Sized n (reply bits, w) e = length-map register_of_bit bits ∙ e
bits-Sized n (refused e, w) _ = tt

module _ (client : Client) (honest : Honest client) where
  open client use {Conn}

  coils-Sized : (a n : ℕ) (w : Conn) → Sized n (coils_as_registers client a n w)
  unfolding coils_as_registers
  coils-Sized a n w = bits-Sized n (client.read_coils a n w) (honest.coils a n w)

  discrete_inputs-Sized : (a n : ℕ) (w : Conn) → Sized n (discrete_inputs_as_registers client a n w)
  unfolding discrete_inputs_as_registers
  discrete_inputs-Sized a n w =
      bits-Sized n (client.read_discrete_inputs a n w) (honest.discrete_inputs a n w)

  registers-Sized : (t : RegisterType) (a n : ℕ) (w : Conn) → Sized n (registers_of client t a n w)
  unfolding registers_of get_modbus_register_type
  registers-Sized RegisterType.input_register a n w =
      of_reply-Safe (λ (regs : List ℕ). length regs ≡ n) (client.read_registers a n input w)
        (honest.registers a n input w)
  registers-Sized RegisterType.holding_register a n w =
      of_reply-Safe (λ (regs : List ℕ). length regs ≡ n) (client.read_registers a n holding w)
        (honest.registers a n holding w)
  registers-Sized _ a n w = tt

  read_points-Sized :
      (t : RegType) (ps : List Point) (w : Conn) → Sized (lengths ps) (read_points client t ps w)
  unfolding read_points
  read_points-Sized t [] w = refl
  read_points-Sized t (p ∷ ps) w =
      then_run-Safe (λ (regs : List ℕ). length regs ≡ p.length)
        (λ (regs : List ℕ). length regs ≡ lengths (p ∷ ps)) _ _
        (read_each-Sized (λ a. client.read_register a t) p.length p.address w)
        λ regs w' e.
          then_run-Safe (λ (rest : List ℕ). length rest ≡ lengths ps)
            (λ (all : List ℕ). length all ≡ lengths (p ∷ ps)) _ _ (read_points-Sized t ps w')
            λ rest w'' f. omega (arith, length-append {0} regs rest)

  read_batch_individual-Sized :
      (g : BatchGroup) (w : Conn) → Sized (lengths g.points) (read_batch_individual client g w)
  unfolding read_batch_individual get_modbus_register_type
  read_batch_individual-Sized g w =
      then_run-Safe (λ t. Unit {0}) (λ (regs : List ℕ). length regs ≡ lengths g.points) _ _
        (known g.register_type) λ t w' _. read_points-Sized t g.points w'
    where
      known : (t : RegisterType) → Safe (λ r. Unit {0}) (lift (get_modbus_register_type t) w)
      known RegisterType.input_register = tt
      known _ = tt

  or_individual :
      (g : BatchGroup) (r : Result (List ℕ) × Conn)
      → lengths g.points ≡ g.total_length
      → Sized g.total_length r
      → Sized g.total_length (on_error r λ _. read_batch_individual client g)
  or_individual g r e h =
      on_error-Safe (λ (regs : List ℕ). length regs ≡ g.total_length) r
        (λ _. read_batch_individual client g) h
        λ _ w.
          subst (λ n. Sized n (read_batch_individual client g w)) e
            (read_batch_individual-Sized g w)

  -- The batch function that the four register types share.
  batch-Sized :
      (read : ℕ → ℕ → M Conn (List ℕ)) (max_read : ℕ)
      → 1 ≤ max_read
      → ((a n : ℕ) (w : Conn) → Sized n (read a n w))
      → (g : BatchGroup) (w : Conn) → lengths g.points ≡ g.total_length
      → Sized g.total_length (
          (if ltb max_read g.total_length
              then split_loop read max_read g.total_length g.start_address g.total_length
              else recover
                  (read g.start_address g.total_length)
                  λ _. read_batch_individual client g)
            w)
  batch-Sized read max_read pos reads g w e = by_size (ltb max_read g.total_length)
    where
      by_size :
          (b : Bool)
          → Sized g.total_length (
              (if b
                  then split_loop read max_read g.total_length g.start_address g.total_length
                  else recover
                      (read g.start_address g.total_length)
                      λ _. read_batch_individual client g)
                w)
      by_size true =
          split_loop-Sized read max_read pos reads g.total_length g.start_address g.total_length w
            (omega arith)
      by_size false =
          or_individual g (read g.start_address g.total_length w) e
            (reads g.start_address g.total_length w)

  -- A group whose length is that of its points is read in full, or not at all.
  pub read_batch-Sized :
      (g : BatchGroup) (w : Conn)
      → lengths g.points ≡ g.total_length
      → Sized g.total_length (read_batch client g w)
  unfolding read_batch read_coil_batch read_discrete_input_batch read_input_register_batch
      read_holding_register_batch read_coil_batch_split read_discrete_input_batch_split
      read_input_register_batch_split read_holding_register_batch_split
  read_batch-Sized g w e = sized_as g.register_type
    where
      sized_as : (t : RegisterType) → Sized g.total_length (read_batch_as client t g w)
      sized_as RegisterType.coil =
          batch-Sized (coils_as_registers client) max_coil_read (omega arith) coils-Sized g w e
      sized_as RegisterType.discrete_input =
          batch-Sized (discrete_inputs_as_registers client) max_discrete_input_read (omega arith)
            discrete_inputs-Sized g w e
      sized_as RegisterType.input_register =
          batch-Sized (registers_of client RegisterType.input_register) max_input_register_read
            (omega arith) (registers-Sized RegisterType.input_register) g w e
      sized_as _ =
          batch-Sized (registers_of client RegisterType.holding_register) max_holding_register_read
            (omega arith) (registers-Sized RegisterType.holding_register) g w e
