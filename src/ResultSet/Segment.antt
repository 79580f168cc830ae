-- ===== src/ResultSet/Segment.antt =====
-- What accessors promise (accessors/types.h), and what `Move` of flight_sql/flight_sql_result_set.cc
-- writes for the rows of one chunk.
use gizmosql_odbc_driver.Prelude.{
  some-injective, ℕ, zero, suc, ◌+◌, ◌*◌, ◌≤◌, ◌<◌, ◌≡◌, ◌≢◌, refl, sym, ap, ◌∙◌, Bool, true, false,
  Option, none, some, List, [], ◌∷◌, ◌++◌, map, length, take, drop, get_elem?, ◌==◌, if◌then◌else◌,
  arith,
}
use gizmosql_odbc_driver.Exceptions.{returns, ◌>>=◌}
use gizmosql_odbc_driver.ResultSet.{
  ColumnBinding, Write, Columnar, Accessors, Written, shift, shifted, fill?, row_success, add,
  rows_from, fetch_column, fetch_columns, column_wise, same_rows,
}
use gizmosql_odbc_driver.ResultSet.Placed.{
  placed, shift_twice, drop-cons, of_column, of_column-append, of_column-same, of_column-other,
}

-- `serves` says which bindings a column's accessor can fill from the chunks of the result: one of
-- another type would throw, and so would a NULL where there is no indicator. A column of a chunk has
-- its values in order, and for a binding that is served GetColumnarData puts the asked rows one after
-- the other, a cell length and eight bytes of the indicator apart.
pub record ReadsCells {C V : Type 0} (accessors : Accessors C V) : Type 1 where
  pub values : C → ℕ → List V
  pub sized : (c : C) (k : ℕ) → length (values c k) ≡ accessors.num_rows c
  pub serves : ℕ → ColumnBinding → Type 0
  pub serves_shifted : (k : ℕ) (b : ColumnBinding) (d e : ℕ) → serves k b → serves k (shifted b d e)
  pub same_length :
      (b : ColumnBinding) (d e : ℕ)
      → accessors.get_cell_length (shifted b d e) ≡ accessors.get_cell_length b
  pub reads :
      (c : C) (k : ℕ) (b : ColumnBinding) (row n : ℕ)
      → serves k b
      → row + n ≤ accessors.num_rows c
      → (r : Columnar V) × (accessors.get_columnar_data c k b row n ≡ returns r)
        × (r.rows ≡ n)
        × (r.writes
            ≡ placed b.buffer b.strlen_buffer
                (accessors.get_cell_length b)
                8
                (take n (drop row (values c k))))

pub append_nil {ℓ} : {A : Type ℓ} (xs : List A) → xs ++ [] ≡ xs
append_nil [] = refl
append_nil (x ∷ xs) = ap (λ l. x ∷ l) (append_nil xs)

pub append_assoc {ℓ} : {A : Type ℓ} (xs ys zs : List A) → (xs ++ ys) ++ zs ≡ xs ++ (ys ++ zs)
append_assoc [] ys zs = refl
append_assoc (x ∷ xs) ys zs = ap (λ l. x ∷ l) (append_assoc xs ys zs)

count_one : (c r n : ℕ) → r ≡ 1 → c + r + n ≡ c + suc n
count_one c r n h = omega arith

skipped :
    {V : Type 0} (k column : ℕ) (w w' : Written V) (xs : List (Write V))
    → w'.log ≡ w.log ++ map (λ x. (column, x)) xs
    → column ≢ k
    → of_column k w'.log ≡ of_column k w.log
skipped k column w w' xs h apart =
    ap (of_column k) h
    ∙ of_column-append k w.log (map (λ x. (column, x)) xs)
    ∙ ap (λ l. of_column k w.log ++ l) (of_column-other k column xs apart)
    ∙ append_nil (of_column k w.log)

module _ {C V : Type 0} (accessors : Accessors C V) (law : ReadsCells accessors) where
  -- The bound columns of a list, which begins at number `column`, are served.
  abbrev pub AreServed : ℕ → List (Option ColumnBinding) → Type 0
  AreServed column [] = Unit
  AreServed column (none ∷ cs) = AreServed (suc column) cs
  AreServed column (some b ∷ cs) = law.serves column b × AreServed (suc column) cs

  -- Row-wise binding puts the rows a row of the application apart.
  rows_from-placed :
      (chunk : C) (k type : ℕ) (b : ColumnBinding) (row fetched n counted : ℕ) (w : Written V)
      → law.serves k b
      → row + n ≤ accessors.num_rows chunk
      → (w' : Written V) × (rows_from accessors chunk k type b row fetched n (w, counted)
          ≡ returns (w', counted + n))
        × (w'.log
            ≡ w.log
              ++ map
                  (λ x. (k, x))
                  (placed b.buffer b.strlen_buffer type type
                    (take n (drop row (law.values chunk k)))))
  unfolding rows_from placed
  rows_from-placed chunk k type b row fetched zero counted w served le =
      (w, ap (λ m. returns (w, m)) (omega arith), sym (append_nil w.log))
  rows_from-placed chunk k type b row fetched (suc n) counted w served le =
      let (r, e, rows, writes) = law.reads chunk k b row 1 served (omega arith) in
      let (w', e', log) =
        rows_from-placed chunk k type (shifted b type type) (suc row) (suc fetched) n
          (counted + r.rows) (add accessors k fetched w r) (law.serves_shifted k b type type served)
          (omega arith) in
      let (v, cons) = drop-cons row (law.values chunk k) (omega (arith, law.sized chunk k)) in
      (
        w',
        ap
              (λ o. o >>= λ c.
                rows_from accessors chunk k type (shifted b type type) (suc row) (suc fetched) n
                  (add accessors k fetched w c, counted + c.rows))
              e
            ∙ e'
            ∙ ap (λ m. returns (w', m)) (count_one counted r.rows n rows),
        log
            ∙ ap
                (λ l.
                  (w.log ++ map (λ x. (k, x)) l)
                  ++ map (λ x. (k, x))
                      (placed (b.buffer + type) (shift type b.strlen_buffer) type type
                        (take n (drop (suc row) (law.values chunk k)))))
                (writes
                  ∙ ap
                      (λ l.
                        placed b.buffer b.strlen_buffer (accessors.get_cell_length b) 8 (take 1 l))
                      cons)
            ∙ append_assoc w.log _ _
            ∙ sym (
                ap
                  (λ l.
                    w.log
                    ++ map (λ x. (k, x))
                        (placed b.buffer b.strlen_buffer type type (take (suc n) l)))
                  cons),
      )

  -- Where a column's row `fetched` goes, and the strides from row to row.
  abbrev pub data_stride : ColumnBinding → ℕ → ℕ
  data_stride b type = if type == 0 then accessors.get_cell_length b else type

  abbrev pub length_stride : ℕ → ℕ
  length_stride type = if type == 0 then 8 else type

  abbrev pub rows_at : ColumnBinding → ℕ → ℕ → ℕ → List V → List (Write V)
  rows_at b offset type fetched vs =
      placed (b.buffer + offset + data_stride b type * fetched)
        (shift (length_stride type * fetched) (shift offset b.strlen_buffer)) (data_stride b type)
        (length_stride type) vs

  abbrev taken : C → ℕ → ℕ → ℕ → List V
  taken chunk k row n = take n (drop row (law.values chunk k))

  -- The two ways of binding, by the test of the bind type.
  read_if :
      (by_column : Bool) (chunk : C) (k : ℕ) (b : ColumnBinding) (offset type row fetched n : ℕ)
      (w : Written V)
      → law.serves k b
      → row + n ≤ accessors.num_rows chunk
      → let da = (if by_column then accessors.get_cell_length b else type) in
        let di = (if by_column then 8 else type) in
        (w' : Written V) × ((if by_column
            then accessors.get_columnar_data chunk k
                (shifted b (accessors.get_cell_length b * fetched + offset) (8 * fetched + offset))
                row
                n
              >>= column_wise accessors k fetched w
            else rows_from accessors chunk k type
                (shifted b (offset + type * fetched) (offset + type * fetched))
                row
                fetched
                n
                (w, 0))
          ≡ returns (w', n))
        × (w'.log
            ≡ w.log
              ++ map
                  (λ x. (k, x))
                  (placed
                    (b.buffer + offset + da * fetched)
                    (shift (di * fetched) (shift offset b.strlen_buffer))
                    da
                    di
                    (taken chunk k row n)))
  read_if true chunk k b offset type row fetched n w served le =
      let cl = accessors.get_cell_length b in
      let (r, e, rows, writes) =
        law.reads chunk k (shifted b (cl * fetched + offset) (8 * fetched + offset)) row n
          (law.serves_shifted k b (cl * fetched + offset) (8 * fetched + offset) served) le in
      (
        add accessors k fetched w r,
        ap (λ o. o >>= column_wise accessors k fetched w) e
            ∙ ap (λ m. returns (add accessors k fetched w r, m)) rows,
        ap (λ l. w.log ++ map (λ x. (k, x)) l)
            (writes
              ∙ ap
                  (λ d.
                    placed (b.buffer + (cl * fetched + offset))
                      (shift (8 * fetched + offset) b.strlen_buffer) d 8 (taken chunk k row n))
                  (law.same_length b (cl * fetched + offset) (8 * fetched + offset))
              ∙ ap
                  (λ a.
                    placed a (shift (8 * fetched + offset) b.strlen_buffer) cl 8
                      (taken chunk k row n))
                  (omega arith)
              ∙ ap (λ i. placed (b.buffer + offset + cl * fetched) i cl 8 (taken chunk k row n))
                  (sym (
                    shift_twice offset (8 * fetched) (8 * fetched + offset) b.strlen_buffer
                      (omega arith)))),
      )
  read_if false chunk k b offset type row fetched n w served le =
      let (w', e, log) =
        rows_from-placed chunk k type
          (shifted b (offset + type * fetched) (offset + type * fetched)) row fetched n 0 w
          (law.serves_shifted k b (offset + type * fetched) (offset + type * fetched) served) le in
      (
        w',
        e ∙ ap (λ m. returns (w', m)) (omega arith),
        log
            ∙ ap (λ l. w.log ++ map (λ x. (k, x)) l)
                (ap
                    (λ a.
                      placed a (shift (offset + type * fetched) b.strlen_buffer) type type
                        (taken chunk k row n))
                    (omega arith)
                  ∙ ap
                      (λ i.
                        placed (b.buffer + offset + type * fetched) i type type
                          (taken chunk k row n))
                      (sym (
                        shift_twice offset (type * fetched) (offset + type * fetched)
                          b.strlen_buffer (omega arith)))),
      )

  same_rows_self : (n : ℕ) (w : Written V) → same_rows accessors n (w, n) ≡ returns w
  same_rows_self n w = ground arith

  fetch_column-rows_at :
      (chunk : C) (k : ℕ) (b : ColumnBinding) (offset type row fetched n : ℕ) (w : Written V)
      → law.serves k b
      → row + n ≤ accessors.num_rows chunk
      → (w' : Written V) × (fetch_column accessors chunk k b offset type row fetched n w
          ≡ returns w')
        × (w'.log
            ≡ w.log ++ map (λ x. (k, x)) (rows_at b offset type fetched (taken chunk k row n)))
  unfolding fetch_column
  fetch_column-rows_at chunk k b offset type row fetched n w served le =
      let w0 : Written V = record w { status = fill? fetched (fetched + n) row_success w.status } in
      let (w', e, log) = read_if (type == 0) chunk k b offset type row fetched n w0 served le in
      (w', ap (λ o. o >>= same_rows accessors n) e ∙ same_rows_self n w', log)

  -- Columns before and after `k` write nothing for it.
  others :
      (chunk : C) (offset type row fetched n k column : ℕ) (cs : List (Option ColumnBinding))
      (w : Written V)
      → AreServed column cs
      → row + n ≤ accessors.num_rows chunk
      → k < column
      → (w' : Written V) × (fetch_columns accessors chunk offset type row fetched n column cs w
          ≡ returns w')
        × (of_column k w'.log ≡ of_column k w.log)
  unfolding fetch_columns
  others chunk offset type row fetched n k column [] w served le lt = (w, refl, refl)
  others chunk offset type row fetched n k column (none ∷ cs) w served le lt =
      others chunk offset type row fetched n k (suc column) cs w served le (omega arith)
  others chunk offset type row fetched n k column (some b ∷ cs) w (serves, served) le lt =
      let (w1, e1, log1) =
        fetch_column-rows_at chunk column b offset type row fetched n w serves le in
      let (w2, e2, log2) =
        others chunk offset type row fetched n k (suc column) cs w1 served le (omega arith) in
      (
        w2,
        ap (λ o. o >>= fetch_columns accessors chunk offset type row fetched n (suc column) cs) e1
            ∙ e2,
        log2 ∙ skipped k column w w1 _ log1 (omega arith),
      )

  -- The columns write the rows of column `k`, if it is bound, once.
  pub fetch_columns-rows_at :
      (chunk : C) (offset type row fetched n k column j : ℕ) (cs : List (Option ColumnBinding))
      (b : ColumnBinding) (w : Written V)
      → AreServed column cs
      → row + n ≤ accessors.num_rows chunk
      → get_elem? cs j ≡ some (some b)
      → k ≡ column + j
      → (w' : Written V) × (fetch_columns accessors chunk offset type row fetched n column cs w
          ≡ returns w')
        × (of_column k w'.log
            ≡ of_column k w.log ++ rows_at b offset type fetched (taken chunk k row n))
  unfolding fetch_columns
  fetch_columns-rows_at chunk offset type row fetched n k column j [] b w served le at e =
      absurd (ground arith)
  fetch_columns-rows_at chunk offset type row fetched n k column zero (none ∷ cs) b w served le at
        e =
      absurd (ground arith)
  fetch_columns-rows_at chunk offset type row fetched n k column zero (some c ∷ cs) b w
        (serves, served) le at e =
      let same : c ≡ b = some-injective (some-injective at) in
      let here : column ≡ k = omega arith in
      let (w1, e1, log1) =
        fetch_column-rows_at chunk column c offset type row fetched n w serves le in
      let (w2, e2, log2) =
        others chunk offset type row fetched n k (suc column) cs w1 served le (omega arith) in
      (
        w2,
        ap (λ o. o >>= fetch_columns accessors chunk offset type row fetched n (suc column) cs) e1
            ∙ e2,
        log2
            ∙ ap (of_column k) (
                log1
                ∙ ap
                    (λ z.
                      w.log
                      ++ map (λ x. (z, x)) (rows_at c offset type fetched (taken chunk z row n)))
                    here
                ∙ ap
                    (λ z.
                      w.log
                      ++ map (λ x. (k, x)) (rows_at z offset type fetched (taken chunk k row n)))
                    same)
            ∙ of_column-append k w.log _
            ∙ ap (λ l. of_column k w.log ++ l) (of_column-same k _),
      )
  fetch_columns-rows_at chunk offset type row fetched n k column (suc j) (none ∷ cs) b w served le
        at e =
      fetch_columns-rows_at chunk offset type row fetched n k (suc column) j cs b w served le at
        (omega arith)
  fetch_columns-rows_at chunk offset type row fetched n k column (suc j) (some c ∷ cs) b w
        (serves, served) le at e =
      let (w1, e1, log1) =
        fetch_column-rows_at chunk column c offset type row fetched n w serves le in
      let (w2, e2, log2) =
        fetch_columns-rows_at chunk offset type row fetched n k (suc column) j cs b w1 served le at
          (omega arith) in
      (
        w2,
        ap (λ o. o >>= fetch_columns accessors chunk offset type row fetched n (suc column) cs) e1
            ∙ e2,
        log2
            ∙ ap (λ l. l ++ rows_at b offset type fetched (taken chunk k row n))
                (skipped k column w w1 _ log1 (omega arith)),
      )
