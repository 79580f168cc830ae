-- ===== src/Statement/GetData.antt =====
-- `GetData` of odbc_impl/ODBCStatement.cc: the type, precision and scale that a column is read with.
use gizmosql_odbc_driver.Prelude.{
  ℕ, suc, Bool, Option, none, some, List, length, get_elem?, ltb, if◌then◌else◌,
}
use gizmosql_odbc_driver.Prelude.Int.{ℤ, pos, negsuc, to_size, eq_ℤ}
use gizmosql_odbc_driver.Prelude.Text.{int_text, ◌+++◌}
use gizmosql_odbc_driver.Exceptions.{Exception, driver_exception, Outcome, returns, throws, ◌>>=◌}
use gizmosql_odbc_driver.Descriptor.Record.{DescriptorRecord}
use gizmosql_odbc_driver.Descriptor.SetField.{is_zero}
use gizmosql_odbc_driver.Statement.{Statement, Memory, ResultSets, deref}
use gizmosql_odbc_driver.Statement.CType.{get_c_type_for_sql_type}

-- SQL_ARD_TYPE and SQL_C_DEFAULT
abbrev pub ard_type : ℤ
ard_type = negsuc 98

abbrev pub c_default : ℤ
c_default = pos 99

-- `evaluatedCType`, `precision` and `scale`
pub record Evaluated : Type 0 where
  pub c_type : ℤ
  pub precision : ℤ
  pub scale : ℤ

abbrev pub no_column : ℤ → Exception
no_column n = driver_exception ("Invalid column index: " +++ int_text n) "07009"

-- `GetRecords()[recordNumber - 1]`, for a number that is not 0.
abbrev pub record_at : List DescriptorRecord → ℤ → Option DescriptorRecord
record_at records (pos (suc i)) = get_elem? records i
record_at records _ = none

abbrev pub of_ard : DescriptorRecord → Outcome Evaluated
of_ard r = returns (record { c_type = r.concise_type; precision = r.precision; scale = r.scale })

-- The first `if`: SQL_ARD_TYPE takes what the row descriptor says.
unfoldable pub from_ard : List DescriptorRecord → ℤ → ℤ → Outcome Evaluated
from_ard ard n c_type =
    if eq_ℤ c_type ard_type
    then if ltb (length ard) (to_size n)
      then throws (no_column n)
      else deref (record_at ard n) >>= of_ard
    else returns (record { c_type = c_type; precision = pos 38; scale = pos 0 })

-- The precision and scale for SQL_C_DEFAULT: the row descriptor's, if it has the record.
abbrev pub refine : Option DescriptorRecord → Evaluated → Evaluated
refine none e = e
refine (some r) e = record { c_type = e.c_type; precision = r.precision; scale = r.scale }

abbrev pub refined : List DescriptorRecord → ℤ → Evaluated → Evaluated
refined ard n e = if ltb (length ard) (to_size n) then e else refine (record_at ard n) e

abbrev pub of_ird : Evaluated → ℤ → Outcome Evaluated
of_ird e c = returns (record { c_type = c; precision = e.precision; scale = e.scale })

-- The second `if`: SQL_C_DEFAULT takes the type of the column.
unfoldable pub from_ird :
    List DescriptorRecord → List DescriptorRecord → ℤ → Evaluated → Outcome Evaluated
from_ird ard ird n e =
    if eq_ℤ e.c_type c_default
    then deref (record_at ird n) >>= get_c_type_for_sql_type >>= of_ird (refined ard n e)
    else returns e

unfoldable pub evaluate : List DescriptorRecord → List DescriptorRecord → ℤ → ℤ → Outcome Evaluated
unfolding from_ard from_ird
evaluate ard ird n c_type =
    if is_zero n
    then throws (driver_exception "Bookmarks are not supported" "07009")
    else if ltb (length ird) (to_size n)
    then throws (no_column n)
    else from_ard ard n c_type >>= from_ird ard ird n

module _ {R : Type 0} (set : ResultSets R) where
  abbrev pub read : ℤ → ℕ → ℕ → ℕ → R → Evaluated → Outcome (R × Bool)
  read n data_ptr buffer_length indicator_ptr r e = set.get_data r n (record {
    target_type = e.c_type;
    precision = e.precision;
    scale = e.scale;
    buffer = data_ptr;
    buffer_length = buffer_length;
    strlen_buffer = indicator_ptr;
  })

  abbrev pub with_result : Statement R → R × Bool → Outcome (Statement R × Bool)
  with_result s (r, more) = returns (record s { curren_result = some r }, more)

  unfoldable pub get_data : Statement R → Memory → ℤ → ℤ → ℕ → ℤ → ℕ → Outcome (Statement R × Bool)
  unfolding evaluate
  get_data s m n c_type data_ptr buffer_length indicator_ptr = deref (m.descriptor s.ird) >>= λ ird.
      deref (m.descriptor s.current_ard) >>= λ ard.
      evaluate ard.records ird.records n c_type >>= λ e. deref s.curren_result >>= λ r.
      read n data_ptr (to_size buffer_length) indicator_ptr r e >>= with_result s
