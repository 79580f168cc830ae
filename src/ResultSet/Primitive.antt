-- ===== src/ResultSet/Primitive.antt =====
-- `CopyFromArrayValuesToBinding` of flight_sql/accessors/common.h under the accessors of
-- flight_sql/accessors/primitive_array_accessor.cc: the columns of numbers of a result.
use gizmosql_odbc_driver.Prelude.{
  ℕ, zero, suc, ◌≡◌, refl, ap, Bool, true, false, ◌||◌, Option, none, some, List, [], ◌∷◌, length,
  take, drop, if◌then◌else◌,
}
use gizmosql_odbc_driver.Exceptions.{Outcome, returns, throws, faults, null_without_indicator}
use gizmosql_odbc_driver.Types.{CDataType}
use gizmosql_odbc_driver.ResultSet.{ColumnBinding, Columnar, Accessors, shift, shifted}
use gizmosql_odbc_driver.ResultSet.Placed.{placed}
use gizmosql_odbc_driver.ResultSet.Segment.{ReadsCells}

-- A chunk of `rows` rows; a cell of a column is a number or NULL.
pub record Batch : Type 0 where
  pub rows : ℕ
  pub cell : ℕ → ℕ → Option ℕ

abbrev pub cells_from : (ℕ → Option ℕ) → ℕ → ℕ → List (Option ℕ)
cells_from cell row zero = []
cells_from cell row (suc n) = cell row ∷ cells_from cell (suc row) n

-- The array of a column.
abbrev pub array_of : Batch → ℕ → List (Option ℕ)
array_of c k = cells_from (c.cell k) 0 c.rows

-- The C types of the instantiations, with `sizeof` of their values.
unfoldable pub element_size : CDataType → Option ℕ
element_size CDataType.sbigint = some 8
element_size CDataType.slong = some 4
element_size CDataType.sshort = some 2
element_size CDataType.stinyint = some 1
element_size CDataType.ubigint = some 8
element_size CDataType.ulong = some 4
element_size CDataType.ushort = some 2
element_size CDataType.utinyint = some 1
element_size CDataType.double = some 8
element_size CDataType.float = some 4
element_size _ = none

abbrev pub no_null : List (Option ℕ) → Bool
no_null [] = true
no_null (none ∷ cells) = false
no_null (some v ∷ cells) = no_null cells

abbrev pub is_given : Option ℕ → Bool
is_given none = false
is_given (some a) = true

-- The cells are copied as a block; the indicators are the size of a cell or SQL_NULL_DATA. Without
-- indicators a NULL is an error.
unfoldable pub copy_from_array_values :
    ℕ → List (Option ℕ) → ColumnBinding → ℕ → ℕ → Outcome (Columnar (Option ℕ))
copy_from_array_values size array b row n =
    let cells = take n (drop row array) in
    if is_given b.strlen_buffer || no_null cells
    then returns
        (record { writes = placed b.buffer b.strlen_buffer size 8 cells; statuses = []; rows = n })
    else throws null_without_indicator

-- Arrays of numbers have no accessor for the other C types here.
unfoldable pub columnar_data :
    Option ℕ → List (Option ℕ) → ColumnBinding → ℕ → ℕ → Outcome (Columnar (Option ℕ))
unfolding copy_from_array_values
columnar_data none array b row n = faults
columnar_data (some size) array b row n = copy_from_array_values size array b row n

abbrev cell_length : Option ℕ → ℕ
cell_length none = 0
cell_length (some size) = size

abbrev pub primitive : Accessors Batch (Option ℕ)
primitive = record {
  num_rows = λ c. c.rows;
  transform = λ c. c;
  get_cell_length = λ b. cell_length (element_size b.target_type);
  get_columnar_data =
      λ c k b row n. columnar_data (element_size b.target_type) (array_of c k) b row n;
}

-- A number's type, and an indicator for the NULLs.
unfoldable pub IsServed : ColumnBinding → Type 0
IsServed b =
    ((size : ℕ) × (element_size b.target_type ≡ some size)) × (is_given b.strlen_buffer ≡ true)

pub length-cells_from : (cell : ℕ → Option ℕ) (row n : ℕ) → length (cells_from cell row n) ≡ n
length-cells_from cell row zero = refl
length-cells_from cell row (suc n) = ap suc (length-cells_from cell (suc row) n)

given_shifted : (d : ℕ) (o : Option ℕ) → is_given o ≡ true → is_given (shift d o) ≡ true
given_shifted d none h = h
given_shifted d (some a) h = refl

pub IsServed-shifted : (b : ColumnBinding) (d e : ℕ) → IsServed b → IsServed (shifted b d e)
unfolding IsServed
IsServed-shifted b d e (typed, given) = (typed, given_shifted e b.strlen_buffer given)

pub primitive_reads :
    (c : Batch) (k : ℕ) (b : ColumnBinding) (row n : ℕ)
    → IsServed b
    → (r : Columnar (Option ℕ)) × (primitive.get_columnar_data c k b row n ≡ returns r)
      × (r.rows ≡ n)
      × (r.writes
          ≡ placed b.buffer b.strlen_buffer
              (primitive.get_cell_length b)
              8
              (take n (drop row (array_of c k))))
unfolding IsServed columnar_data
primitive_reads c k b row n ((size, e), given) = (
  record {
    writes = placed b.buffer b.strlen_buffer size 8 (take n (drop row (array_of c k)));
    statuses = [];
    rows = n;
  },
  rw (e, given),
  refl,
  rw e,
)

-- The accessors of numbers keep what `Move` relies on.
abbrev pub primitive-ReadsCells : ReadsCells primitive
primitive-ReadsCells = record {
  values = array_of;
  sized = λ c k. length-cells_from (c.cell k) 0 c.rows;
  serves = λ k b. IsServed b;
  serves_shifted = λ k b d e. IsServed-shifted b d e;
  same_length = λ b d e. refl;
  reads = λ c k b row n served le. primitive_reads c k b row n served;
}
