-- ===== src/Examples/ResultSet.antt =====
-- Runs of flight_sql_result_set.cc over chunks with columns of numbers.
use gizmosql_odbc_driver.Prelude.{
  ℕ, zero, suc, ◌+◌, ◌≡◌, refl, true, none, some, Option, List, [], ◌∷◌, inr,
}
use gizmosql_odbc_driver.Prelude.Int.{pos}
use gizmosql_odbc_driver.Types.{CDataType, ArrowType}
use gizmosql_odbc_driver.Exceptions.{ok, returns, throws, null_without_indicator}
use gizmosql_odbc_driver.ResultSet.{ColumnBinding, ResultSet, Moved, move}
use gizmosql_odbc_driver.ResultSet.Primitive.{
  Batch, primitive, primitive-ReadsCells, IsServed, element_size, columnar_data,
}
use gizmosql_odbc_driver.ResultSet.InOrder.{IsReady, IsMoved, move-IsMoved}

abbrev binding : ColumnBinding
binding = record {
  buffer = 4096;
  strlen_buffer = some 8192;
  buffer_length = 4;
  target_type = CDataType.slong;
  precision = pos 0;
  scale = pos 0;
}

-- Rows of a chunk: column 0 has NULLs, and column 1 the row's number and ten.
abbrev batch : ℕ → Batch
batch n = record { rows = n; cell = λ k row. elim k [ zero ↦ none | suc j ↦ some (row + 10) ] }

-- Four rows in three chunks, of which one is empty, and a column that is not bound.
abbrev four_rows : ResultSet Batch
four_rows = record {
  chunk_buffer = ok (batch 2) ∷ ok (batch 0) ∷ ok (batch 2) ∷ [];
  current_chunk = none;
  current_row = 0;
  schema = ArrowType.int32 ∷ ArrowType.int32 ∷ [];
  use_wide_char = true;
  columns = none ∷ some binding ∷ [];
}

abbrev numbers : List (Option ℕ)
numbers = some 10 ∷ some 11 ∷ some 10 ∷ some 11 ∷ []

four_rows-IsReady :
    IsReady primitive primitive-ReadsCells 1 binding four_rows.columns four_rows.schema four_rows
      numbers
unfolding IsReady IsServed element_size
four_rows-IsReady = inr (
  batch 2 ∷ batch 0 ∷ batch 2 ∷ [],
  record {
    no_chunk = refl;
    to_come = refl;
    first_row = refl;
    bound = refl;
    served = (((4, refl), refl), tt);
    framed = (refl, refl);
  },
  refl,
)

move-IsMoved_example :
    (moved : Moved Batch (Option ℕ)) × (move primitive four_rows 3 16 0 none ≡ returns moved)
    × IsMoved primitive primitive-ReadsCells 1 binding four_rows.columns four_rows.schema 3 16 0
        numbers moved
move-IsMoved_example =
    move-IsMoved primitive primitive-ReadsCells 1 binding four_rows.columns four_rows.schema 3 16 0
      four_rows none numbers four_rows-IsReady

-- A NULL without an indicator is an error.
null_fails :
    move primitive
      (record four_rows { columns = some (record binding { strlen_buffer = none }) ∷ none ∷ [] })
      3
      0
      0
      none
    ≡ throws null_without_indicator
unfolding move columnar_data element_size
null_fails = refl
