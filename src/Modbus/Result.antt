-- ===== src/Modbus/Result.antt =====
-- Go's (value, error) results, run-time panics, and code that acts on a state.
use mbsscaner.Prelude.{ℕ, String}
use mbsscaner.Config.Types.{DataType, RegisterType}

-- `client` is an error of the Modbus library, known by a number only.
pub data Error : Type 0 where
  client : ℕ → Error
  open_failed connection_test_failed reconnect_failed failed_to_connect write_failed : Error → Error
  no_attempts no_valid_collectors points_not_loaded : Error
  unsupported_register_type : RegisterType → Error
  unsupported_data_type : DataType → Error
  insufficient_registers : ℕ → ℕ → Error
  not_writable : RegisterType → Error
  unsupported_value : Error
  point_not_found collector_not_found config_not_found : String → Error

-- `panics` is a run-time panic of Go, such as an index out of range.
pub data Result {ℓ} (A : Type ℓ) : Type ℓ where
  ok : A → Result A
  err : Error → Result A
  panics : Result A

-- The answer of a library call, which does not panic.
pub data Reply {ℓ} (A : Type ℓ) : Type ℓ where
  reply : A → Reply A
  refused : Error → Reply A

-- Code that acts on a state of type S and may fail.
abbrev pub M : Type 0 → Type 0 → Type 0
M S A = S → Result A × S

abbrev pub then_run {ℓ} :
    {S : Type 0} {A B : Type ℓ} → Result A × S → (A → S → Result B × S) → Result B × S
then_run (ok a, s) f = f a s
then_run (err e, s) f = (err e, s)
then_run (panics, s) f = (panics, s)

infixl 5 ◌>>=◌
abbrev pub ◌>>=◌ : {S A B : Type 0} → M S A → (A → M S B) → M S B
◌>>=◌ m f s = then_run (m s) f

abbrev pub return : {S A : Type 0} → A → M S A
return a s = (ok a, s)

abbrev pub fail : {S A : Type 0} → Error → M S A
fail e s = (err e, s)

abbrev pub on_error : {S A : Type 0} → Result A × S → (Error → M S A) → Result A × S
on_error (ok a, s) h = (ok a, s)
on_error (err e, s) h = h e s
on_error (panics, s) h = (panics, s)

-- `if err != nil { … }` with another result in place of the error.
abbrev pub recover : {S A : Type 0} → M S A → (Error → M S A) → M S A
recover m h s = on_error (m s) h

abbrev pub of_reply : {S A : Type 0} → Reply A × S → Result A × S
of_reply (reply a, s) = (ok a, s)
of_reply (refused e, s) = (err e, s)

-- A library call as a step.
abbrev pub call : {S A : Type 0} → (S → Reply A × S) → M S A
call f s = of_reply (f s)
