-- ===== src/Statement/Cursor.antt =====
-- The cursor of odbc_impl/ODBCStatement.cc: preparing, executing, the catalog functions, closing and
-- `GetData`, over the statement of the part of the driver below it.
use gizmosql_odbc_driver.Prelude.{
  ℕ, Bool, true, false, not, ◌&&◌, Option, none, some, List, if◌then◌else◌,
}
use gizmosql_odbc_driver.Prelude.Int.{ℤ}
use gizmosql_odbc_driver.Exceptions.{Exception, driver_exception, Outcome, returns, throws, ◌>>=◌}
use gizmosql_odbc_driver.Descriptor.{Descriptor}
use gizmosql_odbc_driver.Descriptor.Record.{Bytes}
use gizmosql_odbc_driver.Descriptor.Metadata.{Column, populate_from_result_set_metadata}
use gizmosql_odbc_driver.Statement.{Statement, Memory, ResultSets, deref, put}

-- The calls of spi/statement.h that answer with a result set about the catalog. A null pointer in
-- place of a name is `none`.
pub data CatalogCall : Type 0 where
  tables_v2 tables_v3 : Option Bytes → Option Bytes → Option Bytes → Option Bytes → CatalogCall
  columns_v2 columns_v3 : Option Bytes → Option Bytes → Option Bytes → Option Bytes → CatalogCall
  type_info_v2 type_info_v3 : ℤ → CatalogCall
  foreign_keys :
      Option Bytes
      → Option Bytes
      → Option Bytes
      → Option Bytes
      → Option Bytes
      → Option Bytes
      → CatalogCall
  primary_keys : Option Bytes → Option Bytes → Option Bytes → CatalogCall

-- Statement::StatementAttributeId
pub data AttributeId : Type 0 where
  max_length metadata_id noscan query_timeout : AttributeId

-- spi/statement.h, on a type `S` of statements and a type `R` of result sets.
pub record Spi (S R : Type 0) : Type 0 where
  pub prepare : S → Bytes → Outcome (S × Option (List Column))
  pub execute_prepared : S → Outcome (S × Bool)
  pub execute : S → Bytes → Outcome (S × Bool)
  pub get_result_set : S → R
  pub catalog : S → CatalogCall → Outcome (S × R)
  pub get_attribute : S → AttributeId → Option ℕ
  pub set_attribute : S → AttributeId → ℕ → S × Bool

-- A statement handle: what it is, what it wraps and the memory it points into.
pub record Handle (S R : Type 0) : Type 0 where
  pub spi : S
  pub statement : Statement R
  pub memory : Memory

abbrev pub function_sequence_error : Exception
function_sequence_error = driver_exception "Function sequence error" "HY010"

abbrev pub invalid_cursor_state : Exception
invalid_cursor_state = driver_exception "Invalid cursor state" "28000"

-- `NotifyBindingsHaveChanged`
unfoldable pub notify_bindings_have_changed : Descriptor → Descriptor
notify_bindings_have_changed d = record d { has_bindings_changed = true }

module _ {S R : Type 0} (set : ResultSets R) (spi : Spi S R) where
  abbrev pub populate_with : Handle S R → List Column → Descriptor → Outcome (Handle S R)
  populate_with h columns ird = returns (record h {
    memory = put h.statement.ird (populate_from_result_set_metadata ird columns) h.memory;
  })

  -- `m_ird->PopulateFromResultSetMetadata(…)`
  abbrev pub populate : List Column → Handle S R → Outcome (Handle S R)
  populate columns h = deref (h.memory.descriptor h.statement.ird) >>= populate_with h columns

  abbrev pub populate? : Option (List Column) → Handle S R → Outcome (Handle S R)
  populate? none h = returns h
  populate? (some columns) h = populate columns h

  abbrev pub set_prepared : Bool → Handle S R → Handle S R
  set_prepared b h = record h { statement = record h.statement { is_prepared = b } }

  abbrev pub prepared : Handle S R → S × Option (List Column) → Outcome (Handle S R)
  prepared h (s, columns) =
      populate? columns (record h { spi = s }) >>= λ h'. returns (set_prepared true h')

  unfoldable pub prepare : Handle S R → Bytes → Outcome (Handle S R)
  prepare h query = spi.prepare h.spi query >>= prepared h

  -- The result becomes the current one, and is at its beginning.
  abbrev pub open_result : R → Handle S R → Outcome (Handle S R)
  open_result r h = populate (set.get_metadata r) (record h {
    statement = record h.statement { curren_result = some r; has_reached_end_of_result = false };
  })

  abbrev pub executed : Handle S R → S × Bool → Outcome (Handle S R)
  executed h (s, has_result) =
      if has_result
      then open_result (spi.get_result_set s) (record h { spi = s })
      else returns (record h { spi = s })

  unfoldable pub execute_prepared : Handle S R → Outcome (Handle S R)
  execute_prepared h =
      if not h.statement.is_prepared
      then throws function_sequence_error
      else spi.execute_prepared h.spi >>= executed h

  -- Direct execution wipes out the prepared state.
  unfoldable pub execute_direct : Handle S R → Bytes → Outcome (Handle S R)
  execute_direct h query =
      spi.execute h.spi query >>= executed h >>= λ h'. returns (set_prepared false h')

  -- The current result, if there is one, is closed and the pointer dropped: no later call sees it.
  abbrev pub without_result : Handle S R → Handle S R
  without_result h = record h {
    statement = record h.statement {
      curren_result = none;
      row_number = 0;
      has_reached_end_of_result = false;
    };
  }

  abbrev pub closed_with : Handle S R → Descriptor → Outcome (Handle S R)
  closed_with h ard = returns (
      without_result (record h {
        memory = put h.statement.current_ard (notify_bindings_have_changed ard) h.memory;
      }))

  abbrev pub is_none : Option R → Bool
  is_none none = true
  is_none (some r) = false

  unfoldable pub close_cursor : Handle S R → Bool → Outcome (Handle S R)
  unfolding notify_bindings_have_changed
  close_cursor h suppress_errors =
      if not suppress_errors && is_none h.statement.curren_result
      then throws invalid_cursor_state
      else deref (h.memory.descriptor h.statement.current_ard) >>= closed_with h

  abbrev pub answered : Handle S R → S × R → Outcome (Handle S R)
  answered h (s, r) = open_result r (record h { spi = s }) >>= λ h'. returns (set_prepared false h')

  abbrev pub ask : CatalogCall → Handle S R → Outcome (Handle S R)
  ask call h = spi.catalog h.spi call >>= answered h

  -- The catalog functions close the cursor, call and open the answer.
  unfoldable pub get_tables :
      Handle S R
      → Bool
      → Option Bytes
      → Option Bytes
      → Option Bytes
      → Option Bytes
      → Outcome (Handle S R)
  unfolding close_cursor
  get_tables h is_odbc2 catalog schema table type =
      close_cursor h true
      >>= ask (
          if is_odbc2
          then CatalogCall.tables_v2 catalog schema table type
          else CatalogCall.tables_v3 catalog schema table type)

  unfoldable pub get_columns :
      Handle S R
      → Bool
      → Option Bytes
      → Option Bytes
      → Option Bytes
      → Option Bytes
      → Outcome (Handle S R)
  unfolding close_cursor
  get_columns h is_odbc2 catalog schema table column =
      close_cursor h true
      >>= ask (
          if is_odbc2
          then CatalogCall.columns_v2 catalog schema table column
          else CatalogCall.columns_v3 catalog schema table column)

  unfoldable pub get_type_info : Handle S R → Bool → ℤ → Outcome (Handle S R)
  unfolding close_cursor
  get_type_info h is_odbc2 type =
      close_cursor h true
      >>= ask (if is_odbc2 then CatalogCall.type_info_v2 type else CatalogCall.type_info_v3 type)

  unfoldable pub get_foreign_keys :
      Handle S R
      → Option Bytes
      → Option Bytes
      → Option Bytes
      → Option Bytes
      → Option Bytes
      → Option Bytes
      → Outcome (Handle S R)
  unfolding close_cursor
  get_foreign_keys h pk_catalog pk_schema pk_table fk_catalog fk_schema fk_table =
      close_cursor h true
      >>= ask (CatalogCall.foreign_keys pk_catalog pk_schema pk_table fk_catalog fk_schema fk_table)

  unfoldable pub get_primary_keys :
      Handle S R → Option Bytes → Option Bytes → Option Bytes → Outcome (Handle S R)
  unfolding close_cursor
  get_primary_keys h catalog schema table =
      close_cursor h true >>= ask (CatalogCall.primary_keys catalog schema table)

  unfoldable pub release_statement : Handle S R → Outcome (Handle S R)
  unfolding close_cursor
  release_statement h = close_cursor h true
