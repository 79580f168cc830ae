-- ===== src/Examples/Statement.antt =====
-- Runs of ODBCStatement.cc over the result sets of flight_sql_result_set.cc.
use gizmosql_odbc_driver.Prelude.{
  ℕ, ◌≡◌, refl, true, false, none, some, List, map, zero, suc, inr, [], ◌∷◌, arith,
}
use gizmosql_odbc_driver.Prelude.Int.{pos, negsuc}
use gizmosql_odbc_driver.Exceptions.{ok, returns, faults, ◌>>=◌}
use gizmosql_odbc_driver.Descriptor.{Descriptor}
use gizmosql_odbc_driver.Descriptor as Desc
use gizmosql_odbc_driver.Descriptor.Record.{DescriptorRecord, default_record}
use gizmosql_odbc_driver.Types.{SqlDataType, ArrowType, sql_code}
use gizmosql_odbc_driver.Descriptor.Metadata.{Column, get_sql_type_for_odbc_version}
use gizmosql_odbc_driver.Statement.{Statement, Memory, ResultSets, init}
use gizmosql_odbc_driver.Statement.CType.{c_type_of}
use gizmosql_odbc_driver.Statement.Defaults.{succeeds, has_c_type, c_type_of-has_c_type}
use gizmosql_odbc_driver.Statement.Forward.{ReadsForward, AreAccepted}
use gizmosql_odbc_driver.Statement.Flight.{flight, flight-ReadsForward, IsSound}
use gizmosql_odbc_driver.ResultSet.{ResultSet}
use gizmosql_odbc_driver.ResultSet.Primitive.{Batch}
use gizmosql_odbc_driver.Statement.Fetch.{Fetched, fetch, binding_of}
use gizmosql_odbc_driver.Statement.Step.{IsReading, IsStepped, fetch-IsStepped}
use gizmosql_odbc_driver.Statement.Draining.{fetch_all}
use gizmosql_odbc_driver.Statement.Cursor.{Handle, Spi, close_cursor}
use gizmosql_odbc_driver.Statement.Cycle.{IsSetUp, run_query, run_query-fetch_all}
use gizmosql_odbc_driver.Statement.Closed.{close_cursor-fetch}
use gizmosql_odbc_driver.Statement.GetData.{evaluate, ard_type, c_default}
use gizmosql_odbc_driver.Statement.ArdType.{evaluate-ard_type}

-- A column of type INTEGER and of its number in a chunk.
abbrev number_column : Column
number_column = record {
  base_column_name = [];
  base_table_name = [];
  catalog_name = [];
  column_label = [];
  literal_prefix = [];
  literal_suffix = [];
  local_type_name = [];
  name = b'n' ∷ [];
  schema_name = [];
  table_name = [];
  type_name = [];
  concise_type = 4;
  data_type = 4;
  column_display_size = 11;
  octet_length = 4;
  length = 4;
  num_prec_radix = 10;
  precision = 10;
  scale = 0;
  is_auto_unique = false;
  is_case_sensitive = false;
  is_fixed_prec_scale = false;
  is_unsigned = false;
  nullable = pos 1;
  searchable = pos 2;
  updatable = pos 0;
}

abbrev described : List Column
described = number_column ∷ []

abbrev batch : ℕ → Batch
batch n = record { rows = n; cell = λ k row. some row }

-- A result set that no call has reached yet.
abbrev unread : List Batch → ResultSet Batch
unread cs = record {
  chunk_buffer = map ok cs;
  current_chunk = none;
  current_row = 0;
  schema = ArrowType.int32 ∷ [];
  use_wide_char = true;
  columns = none ∷ [];
}

unread-IsSound : (cs : List Batch) → IsSound (unread cs)
unread-IsSound cs = record {
  cs = cs;
  slot = none;
  to_come = refl;
  columns = refl;
  same_schema = refl;
  position = inr (refl, refl);
}

abbrev set : ResultSets (ResultSet Batch)
set = flight described

abbrev law : ReadsForward set
law = flight-ReadsForward described

-- A server whose every query has the chunks of its state.
abbrev server : Spi (List Batch) (ResultSet Batch)
server = record {
  prepare = λ s query. returns (s, none);
  execute_prepared = λ s. returns (s, true);
  execute = λ s query. returns (s, true);
  get_result_set = unread;
  catalog = λ s call. returns (s, unread []);
  get_attribute = λ s id. none;
  set_attribute = λ s id value. (s, true);
}

-- Bound to SQL_C_SLONG with an indicator.
abbrev bound_record : DescriptorRecord
bound_record = record default_record {
  type = negsuc 15;
  data_ptr = 4096;
  indicator_ptr = 8192;
  is_bound = true;
}

-- Every address has a descriptor that reads three rows at a time and counts in cell 77.
abbrev blank : Descriptor
blank = record (Desc.init none true true false) {
  array_size = 3;
  rows_processed_ptr = 77;
  records = bound_record ∷ [];
}

record_accepted : AreAccepted law (bound_record ∷ []) 1
unfolding binding_of
record_accepted zero lt = record {
  first = refl;
  is_long = refl;
  has_buffer = omega arith;
  has_indicator = omega arith;
}
record_accepted (suc j) lt = absurd (omega (arith, lt))

-- Seven rows in two chunks.
abbrev seven_rows : List Batch
seven_rows = batch 4 ∷ batch 3 ∷ []

abbrev memory : Memory
memory = record { descriptor = λ a. some blank; cell = λ a. 0 }

abbrev handle : Handle (List Batch) (ResultSet Batch)
handle = record { spi = seven_rows; statement = init 10 11 12 13; memory = memory }

handle-IsSetUp : IsSetUp handle.statement memory 3 77
unfolding init Desc.init
handle-IsSetUp = record {
  ard = blank;
  ird = blank;
  unlimited = refl;
  ard_at = refl;
  ird_at = refl;
  apart = omega arith;
  array = refl;
  counts = refl;
}

run_query-fetch_all_example :
    (run_query set law server handle [] >>= λ h'. fetch_all set 4 77 h'.statement h'.memory)
    ≡ returns (3 ∷ 3 ∷ 1 ∷ [], true)
unfolding Desc.init handle-IsSetUp
run_query-fetch_all_example =
    run_query-fetch_all set law server handle [] seven_rows 2 1 3 77 (omega arith) (omega arith)
      handle-IsSetUp refl (unread-IsSound seven_rows) refl record_accepted refl

close_cursor-fetch_example :
    (close_cursor set server handle true >>= λ g. fetch set g.statement g.memory 1) ≡ faults
unfolding init
close_cursor-fetch_example =
    close_cursor-fetch set server handle 1 blank blank refl refl (λ e. absurd (omega (arith, e)))

c_type_of-has_c_type_example :
    (succeeds
        (c_type_of (get_sql_type_for_odbc_version (sql_code SqlDataType.type_date) true) (pos 0))
      ≡ has_c_type SqlDataType.type_date)
    × (c_type_of (get_sql_type_for_odbc_version (sql_code SqlDataType.type_date) true) (pos 0)
        ≡ c_type_of (get_sql_type_for_odbc_version (sql_code SqlDataType.type_date) false) (pos 0))
c_type_of-has_c_type_example = c_type_of-has_c_type SqlDataType.type_date (pos 0)

-- A column of type VARCHAR, and the record of a column that was never bound.
evaluate-ard_type_example :
    evaluate
      (default_record ∷ [])
      (record default_record { concise_type = pos 12 } ∷ [])
      (pos 1)
      ard_type
    ≡ evaluate
        (default_record ∷ [])
        (record default_record { concise_type = pos 12 } ∷ [])
        (pos 1)
        c_default
evaluate-ard_type_example =
    evaluate-ard_type (default_record ∷ []) (record default_record { concise_type = pos 12 } ∷ []) 0
      default_record refl refl

-- The statement after the query ran, with seven rows to read.
abbrev reading : Statement (ResultSet Batch)
reading = record (init 10 11 12 13) { curren_result = some (unread seven_rows) }

reading-IsReading : IsReading set law reading memory 3 7 77
unfolding init Desc.init
reading-IsReading = record {
  r = unread seven_rows;
  ard = blank;
  ird = blank;
  is_open = refl;
  sound = unread-IsSound seven_rows;
  accepted = record_accepted;
  width = refl;
  rows = refl;
  going = refl;
  unlimited = refl;
  ard_at = refl;
  ird_at = refl;
  apart = omega arith;
  array = refl;
  counts = refl;
  in_step = λ h. absurd (ground arith);
}

fetch-IsStepped_example :
    (f : Fetched (ResultSet Batch)) × (fetch set reading memory 3 ≡ returns f)
    × IsStepped set law reading memory blank blank 3 7 77 f
unfolding reading-IsReading
fetch-IsStepped_example =
    fetch-IsStepped set law reading memory 3 7 77 reading-IsReading (omega arith)
