-- ===== src/ResultSet.antt =====
-- flight_sql/flight_sql_result_set.cc: `Move` over the chunks of a result. A column's accessor is
-- that of its binding's type on the current chunk, as BindColumn and Move keep it; GetData, which may
-- replace it, is not modelled.
pub mod Bind
pub mod Placed
pub mod Segment
pub mod Primitive
pub mod Rows
pub mod InOrder
use gizmosql_odbc_driver.Prelude.{
  ℕ, zero, suc, ◌+◌, ◌-◌, ◌*◌, min, Bool, true, false, ◌&&◌, Option, none, some, List, [], ◌∷◌,
  ◌++◌, map, length, ltb, leb, ◌==◌, if◌then◌else◌,
}
use gizmosql_odbc_driver.Prelude.Int.{ℤ}
use gizmosql_odbc_driver.Types.{CDataType, ArrowType}
use gizmosql_odbc_driver.Exceptions.{
  Exception, driver_exception, Result, ok, err, Outcome, returns, throws, faults, ◌>>=◌,
}

-- `ColumnBinding` of accessors/types.h, with a buffer; the indicator may be null.
pub record ColumnBinding : Type 0 where
  pub buffer : ℕ
  pub strlen_buffer : Option ℕ
  pub buffer_length : ℕ
  pub target_type : CDataType
  pub precision : ℤ
  pub scale : ℤ

-- A value that an accessor puts at an address, with its length or SQL_NULL_DATA at the indicator.
pub record Write (V : Type 0) : Type 0 where
  pub address : ℕ
  pub indicator : Option ℕ
  pub value : V

-- What `GetColumnarData` does: its writes, the row statuses that it sets, and its result.
pub record Columnar (V : Type 0) : Type 0 where
  pub writes : List (Write V)
  pub statuses : List (Option ℕ)
  pub rows : ℕ

-- A type `C` of chunks with their columns' accessors, and the transformer, if there is one.
-- `get_columnar_data` takes the chunk, the column, the binding, the starting row and the cells.
pub record Accessors (C V : Type 0) : Type 0 where
  pub num_rows : C → ℕ
  pub transform : C → C
  pub get_cell_length : ColumnBinding → ℕ
  pub get_columnar_data : C → ℕ → ColumnBinding → ℕ → ℕ → Outcome (Columnar V)

-- `chunk_buffer` is what GetNext will give: chunks, and then nothing or an error.
pub record ResultSet (C : Type 0) : Type 0 where
  pub chunk_buffer : List (Result C)
  pub current_chunk : Option C
  pub current_row : ℕ
  pub schema : List ArrowType
  pub use_wide_char : Bool
  pub columns : List (Option ColumnBinding)

-- The writes so far, with their columns, and the row status array, if there is one.
pub record Written (V : Type 0) : Type 0 where
  pub log : List (ℕ × Write V)
  pub status : Option (ℕ → ℕ)

-- RowStatus_SUCCESS and RowStatus_NOROW
abbrev pub row_success : ℕ
row_success = 0

abbrev pub no_row : ℕ
no_row = 3

-- `std::fill` of the positions from `low` to below `high`.
unfoldable pub fill : ℕ → ℕ → ℕ → (ℕ → ℕ) → ℕ → ℕ
fill low high v status = λ i. if leb low i && ltb i high then v else status i

abbrev pub fill? : ℕ → ℕ → ℕ → Option (ℕ → ℕ) → Option (ℕ → ℕ)
fill? low high v none = none
fill? low high v (some status) = some (fill low high v status)

abbrev pub set_status : ℕ → Option ℕ → (ℕ → ℕ) → ℕ → ℕ
set_status i none status = status
set_status i (some v) status = λ j. if j == i then v else status j

-- The statuses that an accessor sets, from a position on.
unfoldable pub overlay : ℕ → List (Option ℕ) → (ℕ → ℕ) → ℕ → ℕ
overlay i [] status = status
overlay i (v ∷ vs) status = overlay (suc i) vs (set_status i v status)

abbrev pub overlay? : ℕ → List (Option ℕ) → Option (ℕ → ℕ) → Option (ℕ → ℕ)
overlay? i vs none = none
overlay? i vs (some status) = some (overlay i vs status)

abbrev pub shift : ℕ → Option ℕ → Option ℕ
shift d none = none
shift d (some p) = some (p + d)

abbrev pub shifted : ColumnBinding → ℕ → ℕ → ColumnBinding
shifted b data_shift length_shift = record b {
  buffer = b.buffer + data_shift;
  strlen_buffer = shift length_shift b.strlen_buffer;
}

abbrev pub row_mismatch : Exception
row_mismatch = driver_exception "Expected the same number of rows for all columns" "HY000"

-- What a round of the loop leaves: the end of the data, or the next round.
pub data Step (C V : Type 0) : Type 0 where
  stop : Step C V
  again : ResultSet C → ℕ → Written V → Step C V

-- The result set, the number of fetched rows and what was written.
abbrev pub Moved : Type 0 → Type 0 → Type 0
Moved C V = ResultSet C × ℕ × Written V

abbrev pub deref {ℓ} : {A : Type ℓ} → Option A → Outcome A
deref none = faults
deref (some a) = returns a

module _ {C V : Type 0} (accessors : Accessors C V) where
  abbrev pub add : ℕ → ℕ → Written V → Columnar V → Written V
  add column fetched w c = record {
    log = w.log ++ map (λ x. (column, x)) c.writes;
    status = overlay? fetched c.statuses w.status;
  }

  -- The loop of row-wise binding, with `n` rows left: the writes and the rows that it counts.
  unfoldable pub rows_from :
      C → ℕ → ℕ → ColumnBinding → ℕ → ℕ → ℕ → Written V × ℕ → Outcome (Written V × ℕ)
  rows_from chunk column bind_type b row fetched zero w = returns w
  rows_from chunk column bind_type b row fetched (suc n) (w, counted) =
      accessors.get_columnar_data chunk column b row 1 >>= λ c.
      rows_from chunk column bind_type (shifted b bind_type bind_type) (suc row) (suc fetched) n
        (add column fetched w c, counted + c.rows)

  abbrev pub column_wise : ℕ → ℕ → Written V → Columnar V → Outcome (Written V × ℕ)
  column_wise column fetched w c = returns (add column fetched w c, c.rows)

  abbrev pub same_rows : ℕ → Written V × ℕ → Outcome (Written V)
  same_rows n (w, counted) = if n == counted then returns w else throws row_mismatch

  -- One bound column, for `n` rows of the chunk from `row`, of which the first is number `fetched`.
  unfoldable pub fetch_column :
      C → ℕ → ColumnBinding → ℕ → ℕ → ℕ → ℕ → ℕ → Written V → Outcome (Written V)
  unfolding rows_from
  fetch_column chunk column b bind_offset bind_type row fetched n w =
      let w' : Written V = record w { status = fill? fetched (fetched + n) row_success w.status } in
      (if bind_type == 0
        then accessors.get_columnar_data chunk column
            (shifted b (accessors.get_cell_length b * fetched + bind_offset)
              (8 * fetched + bind_offset))
            row n
          >>= column_wise column fetched w'
        else rows_from chunk column bind_type
            (shifted b (bind_offset + bind_type * fetched) (bind_offset + bind_type * fetched)) row
            fetched n (w', 0))
      >>= same_rows n

  -- The loop over the columns, from number `column` on; there can be unbound ones.
  unfoldable pub fetch_columns :
      C → ℕ → ℕ → ℕ → ℕ → ℕ → ℕ → List (Option ColumnBinding) → Written V → Outcome (Written V)
  unfolding fetch_column
  fetch_columns chunk bind_offset bind_type row fetched n column [] w = returns w
  fetch_columns chunk bind_offset bind_type row fetched n column (none ∷ cs) w =
      fetch_columns chunk bind_offset bind_type row fetched n (suc column) cs w
  fetch_columns chunk bind_offset bind_type row fetched n column (some b ∷ cs) w =
      fetch_column chunk column b bind_offset bind_type row fetched n w
      >>= fetch_columns chunk bind_offset bind_type row fetched n (suc column) cs

  -- `GetNext` and the transformer: the next chunk becomes the current one; none if there is no more.
  abbrev pub next_of : ResultSet C → List (Result C) → Outcome (Option (ResultSet C))
  next_of s [] = returns none
  next_of s (ok c ∷ cs) =
      returns (some (record s { chunk_buffer = cs; current_chunk = some (accessors.transform c) }))
  next_of s (err e ∷ cs) = throws e

  unfoldable pub get_next : ResultSet C → Outcome (Option (ResultSet C))
  get_next s = next_of s s.chunk_buffer

  abbrev pub rewind : Written V → ℕ → Option (ResultSet C) → Outcome (Step C V)
  rewind w fetched none = returns stop
  rewind w fetched (some s) = returns (again (record s { current_row = 0 }) fetched w)

  abbrev pub advanced : ResultSet C → ℕ → ℕ → Written V → Outcome (Step C V)
  advanced s fetched n w =
      returns (again (record s { current_row = s.current_row + n }) (fetched + n) w)

  -- The rows that the chunk has from the current row on, at most those that are wanted. The current
  -- row is never beyond the chunk.
  abbrev pub rows_to_fetch : ResultSet C → C → ℕ → ℕ → ℕ
  rows_to_fetch s chunk rows fetched =
      min (rows - fetched) (accessors.num_rows chunk - s.current_row)

  abbrev pub segment : ℕ → ℕ → ResultSet C → C → ℕ → Written V → ℕ → Outcome (Step C V)
  segment bind_offset bind_type s chunk fetched w n =
      if n == 0
      then get_next s >>= rewind w fetched
      else fetch_columns chunk bind_offset bind_type s.current_row fetched n 0 s.columns w
        >>= advanced s fetched n

  -- The body of the loop, while `fetched` is below `rows`.
  unfoldable pub step : ℕ → ℕ → ℕ → ResultSet C → ℕ → Written V → Outcome (Step C V)
  unfolding fetch_columns get_next
  step rows bind_offset bind_type s fetched w = deref s.current_chunk >>= λ chunk.
      segment bind_offset bind_type s chunk fetched w (rows_to_fetch s chunk rows fetched)

  abbrev pub resume :
      (ResultSet C → ℕ → Written V → Outcome (Moved C V))
      → Moved C V
      → Step C V
      → Outcome (Moved C V)
  resume go stopped stop = returns stopped
  resume go stopped (again s fetched w) = go s fetched w

  -- The loop. A round reads at least one row or takes a chunk from the buffer.
  unfoldable pub move_from : ℕ → ℕ → ℕ → ℕ → ResultSet C → ℕ → Written V → Outcome (Moved C V)
  unfolding step
  move_from zero rows bind_offset bind_type s fetched w = faults
  move_from (suc fuel) rows bind_offset bind_type s fetched w =
      if ltb fetched rows
      then step rows bind_offset bind_type s fetched w
        >>= resume (move_from fuel rows bind_offset bind_type) (s, fetched, w)
      else returns (s, fetched, w)

  -- The rows that were not there are marked in the row status array.
  abbrev pub mark : ℕ → Moved C V → Outcome (Moved C V)
  mark rows (s, fetched, w) = returns (
    s,
    fetched,
    record w {
      status = (if ltb fetched rows then fill? fetched rows no_row w.status else w.status);
    },
  )

  abbrev pub run : ℕ → ℕ → ℕ → ResultSet C → Written V → Outcome (Moved C V)
  run rows bind_offset bind_type s w =
      move_from (rows + length s.chunk_buffer + 1) rows bind_offset bind_type s 0 w >>= mark rows

  abbrev pub start :
      ℕ → ℕ → ℕ → ResultSet C → Written V → Option (ResultSet C) → Outcome (Moved C V)
  start rows bind_offset bind_type s w none = returns (s, 0, w)
  start rows bind_offset bind_type s w (some s') = run rows bind_offset bind_type s' w

  abbrev pub begin : ℕ → ℕ → ℕ → ResultSet C → Written V → Option C → Outcome (Moved C V)
  begin rows bind_offset bind_type s w none = get_next s >>= start rows bind_offset bind_type s w
  begin rows bind_offset bind_type s w (some c) = run rows bind_offset bind_type s w

  -- The first call finds no current chunk.
  unfoldable pub move : ResultSet C → ℕ → ℕ → ℕ → Option (ℕ → ℕ) → Outcome (Moved C V)
  unfolding move_from get_next
  move s rows bind_offset bind_type status =
      let w : Written V = record { log = []; status = status } in
      begin rows bind_offset bind_type s w s.current_chunk
