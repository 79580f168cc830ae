-- ===== src/Statement/Fetch.antt =====
-- `ODBCStatement::Fetch` of odbc_impl/ODBCStatement.cc, with the accessors of ODBCDescriptor.h that
-- it calls and `SQLFetch` of odbc_entry.cc above it.
use gizmosql_odbc_driver.Prelude.{
  ℕ, zero, suc, ◌+◌, ◌-◌, ◌%◌, ◌^◌, min, Bool, false, not, Option, none, some, List, length,
  get_elem?, ◌==◌, if◌then◌else◌,
}
use gizmosql_odbc_driver.Prelude.Int.{pos, to_size}
use gizmosql_odbc_driver.Exceptions.{Outcome, returns, ◌>>=◌}
use gizmosql_odbc_driver.Descriptor.{Descriptor}
use gizmosql_odbc_driver.Descriptor.Record.{DescriptorRecord}
use gizmosql_odbc_driver.Statement.{Statement, Memory, Binding, ResultSets, deref, store, put}
use gizmosql_odbc_driver.Statement.CType.{get_length}

unfoldable pub get_bind_offset : Descriptor → Memory → ℕ
get_bind_offset d m = if d.bind_offset_ptr == 0 then 0 else m.cell d.bind_offset_ptr

-- The SQLINTEGER becomes an SQLULEN.
unfoldable pub get_bound_struct_offset : Descriptor → ℕ
get_bound_struct_offset d = to_size d.bind_type

abbrev pub write_cell : ℕ → ℕ → Memory → Memory
write_cell pointer n m = if pointer == 0 then m else record m { cell = store pointer n m.cell }

unfoldable pub set_rows_processed : Descriptor → ℕ → Memory → Memory
set_rows_processed d rows m = write_cell d.rows_processed_ptr rows m

unfoldable pub notify_bindings_have_propagated : Descriptor → Descriptor
notify_bindings_have_propagated d = record d { has_bindings_changed = false }

-- CDataType_CHAR and no buffer
abbrev pub no_binding : Binding
no_binding = record {
  target_type = pos 1;
  precision = pos 0;
  scale = pos 0;
  buffer = 0;
  buffer_length = 0;
  strlen_buffer = 0;
}

unfoldable pub binding_of : Option DescriptorRecord → Binding
unfolding get_length
binding_of none = no_binding
binding_of (some r) =
    if r.is_bound
    then record {
      target_type = r.type;
      precision = r.precision;
      scale = r.scale;
      buffer = r.data_ptr;
      buffer_length = get_length r;
      strlen_buffer = r.indicator_ptr;
    }
    else no_binding

-- What `Fetch` leaves and its result.
pub record Fetched (R : Type 0) : Type 0 where
  pub statement : Statement R
  pub memory : Memory
  pub fetched : Bool

module _ {R : Type 0} (set : ResultSets R) where
  -- The loop over the columns, with `n` of them left from position `i`.
  unfoldable pub bind_columns : List DescriptorRecord → ℕ → ℕ → R → Outcome R
  unfolding binding_of
  bind_columns records i zero r = returns r
  bind_columns records i (suc n) r =
      set.bind_column r (suc i) (binding_of (get_elem? records i))
      >>= bind_columns records (suc i) n

  -- The bindings go to the result set if they have changed since they last did.
  unfoldable pub propagate :
      Statement R → Descriptor → Descriptor → R → Memory → Outcome (R × Memory)
  unfolding bind_columns notify_bindings_have_propagated
  propagate s ard ird r m =
      if ard.has_bindings_changed
      then bind_columns ard.records 0 (length ird.records) r
        >>= (λ r'. returns (r', put s.current_ard (notify_bindings_have_propagated ard) m))
      else returns (r, m)

  -- `std::min(rows, m_maxRows - m_rowNumber)`, on SQLULEN.
  abbrev pub rows_to_move : Statement R → ℕ → ℕ
  rows_to_move s rows =
      if s.max_rows == 0 then rows else min rows ((s.max_rows + 2 ^ 64 - s.row_number) % 2 ^ 64)

  -- The end of `Fetch`, after `Move`.
  unfoldable pub moved : Statement R → Descriptor → ℕ → Memory → R × ℕ → Outcome (Fetched R)
  unfolding set_rows_processed
  moved s ird rows m (r, rows_fetched) = returns (record {
    statement = record s {
      curren_result = some r;
      row_number = (s.row_number + rows_fetched) % 2 ^ 64;
      has_reached_end_of_result = not (rows_fetched == rows);
    };
    memory = set_rows_processed ird rows_fetched m;
    fetched = not (rows_fetched == 0);
  })

  abbrev pub fetch_from :
      Statement R → ℕ → Descriptor → Descriptor → R × Memory → Outcome (Fetched R)
  fetch_from s rows ard ird (r, m) =
      set.move r rows (get_bind_offset ard m) (get_bound_struct_offset ard) ird.array_status_ptr
      >>= moved s ird rows m

  -- No result set is open if the pointer is null, and then the calls on it are undefined.
  abbrev pub fetch_more :
      Statement R → Memory → ℕ → Descriptor → Descriptor → R → Outcome (Fetched R)
  fetch_more s m rows ard ird r = propagate s ard ird r m >>= fetch_from s rows ard ird

  abbrev pub fetch_with : Statement R → Memory → ℕ → Descriptor → Outcome (Fetched R)
  fetch_with s m rows ird =
      if s.has_reached_end_of_result
      then returns (record { statement = s; memory = set_rows_processed ird 0 m; fetched = false })
      else deref (m.descriptor s.current_ard) >>= λ ard.
          deref s.curren_result >>= λ r. fetch_more s m (rows_to_move s rows) ard ird r

  unfoldable pub fetch : Statement R → Memory → ℕ → Outcome (Fetched R)
  unfolding propagate moved set_rows_processed get_bind_offset get_bound_struct_offset
  fetch s m rows = deref (m.descriptor s.ird) >>= fetch_with s m rows

  -- SQLFetch asks for as many rows as the ARD's array has.
  unfoldable pub sql_fetch : Statement R → Memory → Outcome (Fetched R)
  unfolding fetch
  sql_fetch s m = deref (m.descriptor s.current_ard) >>= λ ard. fetch s m ard.array_size
