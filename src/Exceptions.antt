-- ===== src/Exceptions.antt =====
-- odbcabstraction/exceptions.cc: `DriverException` and the exceptions that extend it, each with
-- its own default SQLSTATE and native code, and the standard ones that `ODBCHandle` tells apart.
use gizmosql_odbc_driver.Prelude.{ℕ, String, ◌≡◌, refl}

-- The fields of `DriverException`.
pub record DriverException : Type 0 where
  pub msg_text : String
  pub sql_state : String
  pub native_error : ℕ

-- error_codes.h
abbrev pub general_error : ℕ
general_error = 100

abbrev pub auth : ℕ
auth = 200

abbrev pub communication : ℕ
communication = 500

abbrev pub general_warning : ℕ
general_warning = 1000000

abbrev pub truncation_warning : ℕ
truncation_warning = 1000100

abbrev pub indicator_needed : ℕ
indicator_needed = 1000200

-- What can leave a function: a `DriverException`, `std::bad_alloc`, another `std::exception`
-- with its `what()`, or anything else.
pub data Exception : Type 0 where
  driver : DriverException → Exception
  bad_alloc : Exception
  standard : String → Exception
  unknown : Exception

-- `throw DriverException(message, sql_state)`
abbrev pub driver_exception : String → String → Exception
driver_exception message sql_state =
    driver (record { msg_text = message; sql_state = sql_state; native_error = general_error })

abbrev pub null_without_indicator : Exception
null_without_indicator = driver (record {
  msg_text = "Indicator variable required but not supplied";
  sql_state = "22002";
  native_error = indicator_needed;
})

-- A result or the exception that was thrown instead.
pub data Result {ℓ} (A : Type ℓ) : Type ℓ where
  ok : A → Result A
  err : Exception → Result A

-- The same for code that may also run into undefined behaviour: an access outside a vector, or
-- through a null pointer.
pub data Outcome {ℓ} (A : Type ℓ) : Type ℓ where
  returns : A → Outcome A
  throws : Exception → Outcome A
  faults : Outcome A

infixl 5 ◌>>=◌
abbrev pub ◌>>=◌ {ℓ κ} : {A : Type ℓ} {B : Type κ} → Outcome A → (A → Outcome B) → Outcome B
returns a >>= f = f a
throws e >>= f = throws e
faults >>= f = faults

pub >>=-ext {ℓ κ} :
    {A : Type ℓ} {B : Type κ} {f g : A → Outcome B} (o : Outcome A)
    → ((a : A) → f a ≡ g a)
    → (o >>= f) ≡ (o >>= g)
>>=-ext (returns a) h = h a
>>=-ext (throws e) h = refl
>>=-ext faults h = refl

abbrev pub and_then {ℓ κ} : {A : Type ℓ} {B : Type κ} → Result A → (A → Result B) → Result B
and_then (ok a) f = f a
and_then (err e) f = err e
