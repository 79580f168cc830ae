-- ===== src/Statement/Flight.antt =====
-- The result sets of flight_sql/flight_sql_result_set.cc as those that `ODBCStatement` reads: for a
-- result with one INTEGER column, read as SQL_C_LONG, they keep what `Fetch` relies on.
use gizmosql_odbc_driver.Prelude.{
  ℕ, zero, suc, ◌+◌, ◌-◌, min, ◌≡◌, ◌≢◌, ◌⊎◌, ◌≤◌, refl, sym, ap, ◌∙◌, inl, inr, false, Option,
  none, some, List, [], ◌∷◌, map, length, drop, ◌==◌, arith, length-append, length-drop,
}
use gizmosql_odbc_driver.Prelude.Int.{pos, negsuc}
use gizmosql_odbc_driver.Exceptions.{Result, ok, err, Outcome, returns, faults, ◌>>=◌}
use gizmosql_odbc_driver.Types.{CDataType, ArrowType}
use gizmosql_odbc_driver.Types.Conversion.{convert_c_data_type_from_v2_to_v3}
use gizmosql_odbc_driver.Descriptor.Metadata.{Column}
use gizmosql_odbc_driver.Statement.{Binding, ResultSets}
use gizmosql_odbc_driver.Statement.Forward.{ReadsForward}
use gizmosql_odbc_driver.ResultSet.{ColumnBinding, ResultSet, Moved, move}
use gizmosql_odbc_driver.ResultSet.Bind.{bind_column, set_binding}
use gizmosql_odbc_driver.ResultSet.Primitive.{
  Batch, array_of, primitive, primitive-ReadsCells, IsServed, element_size, length-cells_from,
}
use gizmosql_odbc_driver.ResultSet.Rows.{buffered, ahead}
use gizmosql_odbc_driver.ResultSet.InOrder.{IsReady, move-IsMoved}

abbrev pub pointer : ℕ → Option ℕ
pointer zero = none
pointer (suc a) = some (suc a)

abbrev pub answered : Moved Batch (Option ℕ) → Outcome (ResultSet Batch × ℕ)
answered (s, n, w) = returns (s, n)

-- Without a row status array; GetData is not modelled.
abbrev pub flight : List Column → ResultSets (ResultSet Batch)
flight columns = record {
  bind_column = λ r n b.
      bind_column (λ t. pos 0) r n b.target_type b.precision b.scale b.buffer b.buffer_length
        (pointer b.strlen_buffer);
  move = λ r rows offset type status. move primitive r rows offset type none >>= answered;
  get_data = λ r n b. faults;
  get_metadata = λ r. columns;
}

abbrev pub schema : List ArrowType
schema = ArrowType.int32 ∷ []

-- What BindColumn keeps of a binding to SQL_C_SLONG.
abbrev pub kept : Binding → ColumnBinding
kept b = record {
  buffer = b.buffer;
  strlen_buffer = pointer b.strlen_buffer;
  buffer_length = b.buffer_length;
  target_type = CDataType.slong;
  precision = b.precision;
  scale = b.scale;
}

-- SQL_C_SLONG with a buffer and an indicator, for the first column.
pub record IsAccepted (n : ℕ) (b : Binding) : Type 0 where
  pub first : n ≡ 1
  pub is_long : b.target_type ≡ negsuc 15
  pub has_buffer : b.buffer ≢ 0
  pub has_indicator : b.strlen_buffer ≢ 0

-- All the chunks arrive, and the reader is inside one or before the first; the column may be bound.
pub record IsSound (r : ResultSet Batch) : Type 0 where
  pub cs : List Batch
  pub slot : Option ColumnBinding
  pub to_come : r.chunk_buffer ≡ map ok cs
  pub columns : r.columns ≡ slot ∷ []
  pub same_schema : r.schema ≡ schema
  pub position :
      ((chunk : Batch) × (r.current_chunk ≡ some chunk) × (r.current_row ≤ chunk.rows))
      ⊎ (r.current_chunk ≡ none) × (r.current_row ≡ 0)

abbrev pub total : List (Result Batch) → ℕ
total [] = 0
total (ok c ∷ cs) = c.rows + total cs
total (err e ∷ cs) = 0

abbrev pub left_in : Option Batch → ℕ → ℕ
left_in none row = 0
left_in (some c) row = c.rows - row

abbrev pub rows_left : ResultSet Batch → ℕ
rows_left r = left_in r.current_chunk r.current_row + total r.chunk_buffer

abbrev pub first_of : List (Option ColumnBinding) → Option ColumnBinding
first_of [] = none
first_of (c ∷ cs) = c

abbrev pub bound_at : ResultSet Batch → ℕ → Option ColumnBinding
bound_at r (suc zero) = first_of r.columns
bound_at r _ = none

length-buffered :
    (b : ColumnBinding) (cols : List (Option ColumnBinding)) (cs : List Batch)
    → length (buffered primitive primitive-ReadsCells 0 b cols schema cs) ≡ total (map ok cs)
length-buffered b cols [] = refl
length-buffered b cols (c ∷ cs) = omega (
  arith,
  length-append (array_of c 0) (buffered primitive primitive-ReadsCells 0 b cols schema cs),
  length-cells_from (c.cell 0) 0 c.rows,
  length-buffered b cols cs,
)

length-ahead :
    (b : ColumnBinding) (cols : List (Option ColumnBinding)) (c : Batch) (row : ℕ) (cs : List Batch)
    → length (ahead primitive primitive-ReadsCells 0 b cols schema c row cs)
      ≡ c.rows - row + total (map ok cs)
length-ahead b cols c row cs = omega (
  arith,
  length-append (drop row (array_of c 0))
      (buffered primitive primitive-ReadsCells 0 b cols schema cs),
  length-drop row (array_of c 0),
  length-cells_from (c.cell 0) 0 c.rows,
  length-buffered b cols cs,
)

pointer_given : (a : ℕ) → a ≢ 0 → (p : ℕ) × (pointer a ≡ some p)
pointer_given zero h = absurd (h refl)
pointer_given (suc a) h = (suc a, refl)

test_buffer : (a : ℕ) → a ≢ 0 → a == 0 ≡ false
test_buffer a h = ground arith

-- BindColumn of an accepted binding.
bind_column-kept :
    (columns : List Column) (r : ResultSet Batch) (slot : Option ColumnBinding) (b : Binding)
    → r.columns ≡ slot ∷ []
    → r.schema ≡ schema
    → b.target_type ≡ negsuc 15
    → b.buffer ≢ 0
    → (flight columns).bind_column r 1 b ≡ returns (record r { columns = some (kept b) ∷ [] })
unfolding bind_column set_binding convert_c_data_type_from_v2_to_v3
bind_column-kept columns r slot b e f is_long has_buffer =
    rw (e, f, is_long, test_buffer b.buffer has_buffer)

same_bound : (r s : ResultSet Batch) → s.columns ≡ r.columns → (k : ℕ) → bound_at s k ≡ bound_at r k
same_bound r s h zero = refl
same_bound r s h (suc zero) = ap first_of h
same_bound r s h (suc (suc k)) = refl

other_bound :
    (r : ResultSet Batch) (c : Option ColumnBinding) (n k : ℕ)
    → n ≡ 1
    → k ≢ n
    → bound_at (record r { columns = c ∷ [] }) k ≡ bound_at r k
other_bound r c n zero e h = refl
other_bound r c n (suc zero) e h = absurd (h (sym e))
other_bound r c n (suc (suc k)) e h = refl

pub flight_binds :
    (described : List Column) (r : ResultSet Batch) (n : ℕ) (b : Binding)
    → IsSound r
    → IsAccepted n b
    → (s : ResultSet Batch) × ((flight described).bind_column r n b ≡ returns s)
      × IsSound s
      × (rows_left s ≡ rows_left r)
      × (bound_at s n ≡ some (kept b))
      × ((k : ℕ) → k ≢ n → bound_at s k ≡ bound_at r k)
flight_binds described r n b p a = (
  record r { columns = some (kept b) ∷ [] },
  ap (λ i. (flight described).bind_column r i b) a.first
      ∙ bind_column-kept described r p.slot b p.columns p.same_schema a.is_long a.has_buffer,
  record {
    cs = p.cs;
    slot = some (kept b);
    to_come = p.to_come;
    columns = refl;
    same_schema = p.same_schema;
    position = p.position;
  },
  refl,
  rw a.first,
  λ k h. other_bound r (some (kept b)) n k a.first h,
)

-- What a ready result set is, seen from the statement.
module _ (b : ColumnBinding) (columns : List (Option ColumnBinding)) where
  IsReady-IsSound :
      (s : ResultSet Batch) (slot : Option ColumnBinding) (values : List (Option ℕ))
      → columns ≡ slot ∷ []
      → IsReady primitive primitive-ReadsCells 0 b columns schema s values
      → IsSound s × (rows_left s ≡ length values) × (s.columns ≡ columns)
  unfolding IsReady
  IsReady-IsSound s slot values shape (inl (chunk, cs, p, e)) = (
    record {
      cs = cs;
      slot = slot;
      to_come = p.to_come;
      columns = p.framed.0 ∙ shape;
      same_schema = p.framed.1;
      position = inl (chunk, p.at_chunk, p.inside);
    },
    ap (λ c. left_in c s.current_row + total s.chunk_buffer) p.at_chunk
        ∙ ap (λ l. chunk.rows - s.current_row + total l) p.to_come
        ∙ sym (length-ahead b columns chunk s.current_row cs)
        ∙ ap length (sym e),
    p.framed.0,
  )
  IsReady-IsSound s slot values shape (inr (cs, f, e)) = (
    record {
      cs = cs;
      slot = slot;
      to_come = f.to_come;
      columns = f.framed.0 ∙ shape;
      same_schema = f.framed.1;
      position = inr (f.no_chunk, f.first_row);
    },
    omega (
      arith,
      ap (λ c. left_in c s.current_row) f.no_chunk,
      ap total f.to_come,
      length-buffered b columns cs,
      ap length e,
    ),
    f.framed.0,
  )

  IsSound-IsReady :
      (s : ResultSet Batch)
      → IsSound s
      → s.columns ≡ columns
      → columns ≡ some b ∷ []
      → IsServed b
      → (values : List (Option ℕ)) × IsReady primitive primitive-ReadsCells 0 b columns schema s
          values
  unfolding IsReady
  IsSound-IsReady s p same shape served = elim p.position [
    | inl (chunk, at, inside) ↦ (
      _,
      inl (
        chunk,
        p.cs,
        record {
          at_chunk = at;
          to_come = p.to_come;
          inside = inside;
          bound = rw (same, shape);
          served = rw (same, shape) (served, tt);
          framed = (same, p.same_schema);
        },
        refl,
      ),
    )
    | inr (no_chunk, first) ↦ (
      _,
      inr (
        p.cs,
        record {
          no_chunk = no_chunk;
          to_come = p.to_come;
          first_row = first;
          bound = rw (same, shape);
          served = rw (same, shape) (served, tt);
          framed = (same, p.same_schema);
        },
        refl,
      ),
    )
  ]

kept-IsServed : (b : Binding) → b.strlen_buffer ≢ 0 → IsServed (kept b)
unfolding IsServed element_size
kept-IsServed b h = let (p, e) = pointer_given b.strlen_buffer h in ((4, refl), rw e)

pub flight_moves :
    (described : List Column) (r : ResultSet Batch) (rows offset type status : ℕ) (b : Binding)
    → IsSound r
    → b.strlen_buffer ≢ 0
    → bound_at r 1 ≡ some (kept b)
    → (s : ResultSet Batch) × ((flight described).move r rows offset type status
        ≡ returns (s, min rows (rows_left r)))
      × IsSound s
      × (rows_left s ≡ rows_left r - rows)
      × ((k : ℕ) → bound_at s k ≡ bound_at r k)
flight_moves described r rows offset type status b p indicator at =
    let shape : r.columns ≡ some (kept b) ∷ [] =
      p.columns ∙ ap (λ c. c ∷ []) (ap first_of (sym p.columns) ∙ at) in
    let (values, ready) =
      IsSound-IsReady (kept b) r.columns r p refl shape (kept-IsServed b indicator) in
    let (moved, e, m) =
      move-IsMoved primitive primitive-ReadsCells 0 (kept b) r.columns schema rows offset type r
        none values ready in
    let (sound, left, same) =
      IsReady-IsSound (kept b) r.columns r (some (kept b)) values shape ready in
    let (sound', left', same') =
      IsReady-IsSound (kept b) r.columns moved.0 (some (kept b)) (drop rows values) shape m.ready in
    (
      moved.0,
      ap (λ o. o >>= answered) e
          ∙ ap (λ n. returns (moved.0, n)) (m.number ∙ ap (min rows) (sym left)),
      sound',
      omega (arith, left, left', length-drop rows values),
      same_bound r moved.0 same',
    )

-- The result sets of one INTEGER column read forward.
abbrev pub flight-ReadsForward : (described : List Column) → ReadsForward (flight described)
flight-ReadsForward described = record {
  Bound = Option ColumnBinding;
  sound = IsSound;
  columns = 1;
  accepts = IsAccepted;
  seen = λ n b. some (kept b);
  remaining = rows_left;
  bound = bound_at;
  binds = λ r n b p a. flight_binds described r n b p a;
  moves = λ r rows offset type status p filled.
      let (b, a, at) = filled 0 (omega arith) in
      flight_moves described r rows offset type status b p a.has_indicator at;
}
