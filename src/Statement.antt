-- ===== src/Statement.antt =====
-- odbcabstraction/odbc_impl/ODBCStatement.cc: the statement's own state, the descriptors it points
-- to, and the part of the driver below it.
pub mod CType
pub mod Defaults
pub mod Fetch
pub mod Forward
pub mod Step
pub mod Draining
pub mod Cursor
pub mod Cycle
pub mod Closed
pub mod GetData
pub mod ArdType
pub mod Attributes
pub mod SetAttributes
pub mod SetGet
pub mod Registration
pub mod Assigned
pub mod Release
pub mod Released
pub mod Flight
use gizmosql_odbc_driver.Prelude.{
  ℕ, ◌≡◌, ◌≢◌, arith, Bool, true, false, Option, none, some, List, ◌==◌, if◌then◌else◌,
}
use gizmosql_odbc_driver.Prelude.Int.{ℤ}
use gizmosql_odbc_driver.Exceptions.{Outcome, returns, throws, faults, ◌>>=◌}
use gizmosql_odbc_driver.Descriptor.{Descriptor}
use gizmosql_odbc_driver.Descriptor.Record.{Bytes}
use gizmosql_odbc_driver.Descriptor.Metadata.{Column}

-- The arguments of `ResultSet::BindColumn` after the column's number.
pub record Binding : Type 0 where
  pub target_type : ℤ
  pub precision : ℤ
  pub scale : ℤ
  pub buffer : ℕ
  pub buffer_length : ℕ
  pub strlen_buffer : ℕ

-- spi/result_set.h, on a type of result sets. `move` takes the rows, the bind offset, the bind type
-- and the row status array, and gives the number of fetched rows; `get_data` takes the column, the
-- type, precision, scale, buffer, its length and the indicator.
pub record ResultSets (R : Type 0) : Type 0 where
  pub bind_column : R → ℕ → Binding → Outcome R
  pub move : R → ℕ → ℕ → ℕ → ℕ → Outcome (R × ℕ)
  pub get_data : R → ℤ → Binding → Outcome (R × Bool)
  pub get_metadata : R → List Column

pub record Statement (R : Type 0) : Type 0 where
  pub curren_result : Option R
  pub built_in_ard : ℕ
  pub built_in_apd : ℕ
  pub ipd : ℕ
  pub ird : ℕ
  pub current_ard : ℕ
  pub current_apd : ℕ
  pub row_number : ℕ
  pub max_rows : ℕ
  pub rowset_size : ℕ
  pub is_prepared : Bool
  pub has_reached_end_of_result : Bool

-- The descriptors by address, and the application's SQLULEN cells by address: those that
-- SQL_DESC_BIND_OFFSET_PTR and SQL_DESC_ROWS_PROCESSED_PTR point to.
pub record Memory : Type 0 where
  pub descriptor : ℕ → Option Descriptor
  pub cell : ℕ → ℕ

-- The constructor: the four descriptors exist, and the current row descriptor is, as in the code,
-- the built-in parameter descriptor.
unfoldable pub init : {R : Type 0} → ℕ → ℕ → ℕ → ℕ → Statement R
init ard apd ipd ird = record {
  curren_result = none;
  built_in_ard = ard;
  built_in_apd = apd;
  ipd = ipd;
  ird = ird;
  current_ard = apd;
  current_apd = apd;
  row_number = 0;
  max_rows = 0;
  rowset_size = 1;
  is_prepared = false;
  has_reached_end_of_result = false;
}

abbrev pub deref {ℓ} : {A : Type ℓ} → Option A → Outcome A
deref none = faults
deref (some a) = returns a

abbrev pub store {ℓ} : {A : Type ℓ} → ℕ → A → (ℕ → A) → ℕ → A
store a v f = λ b. if b == a then v else f b

pub store-same {ℓ} : {A : Type ℓ} (a : ℕ) (v : A) (f : ℕ → A) → store a v f a ≡ v
store-same a v f = ground arith

pub store-other {ℓ} : {A : Type ℓ} (a b : ℕ) (v : A) (f : ℕ → A) → b ≢ a → store a v f b ≡ f b
store-other a b v f h = ground arith

abbrev pub put : ℕ → Descriptor → Memory → Memory
put a d m = record m { descriptor = store a (some d) m.descriptor }
