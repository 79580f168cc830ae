-- ===== src/ResultSet/InOrder.antt =====
-- Calls of `Move` of flight_sql/flight_sql_result_set.cc, the first one and later ones.
use gizmosql_odbc_driver.Prelude.{
  ℕ, zero, suc, ◌+◌, ◌-◌, min, ◌≡◌, ◌⊎◌, refl, sym, ap, ◌∙◌, subst, inl, inr, Option, none, some,
  List, [], ◌∷◌, ◌++◌, map, length, take, drop, get_elem?, arith,
}
use gizmosql_odbc_driver.Exceptions.{ok, returns, ◌>>=◌}
use gizmosql_odbc_driver.Types.{ArrowType}
use gizmosql_odbc_driver.ResultSet.{
  ColumnBinding, Accessors, ResultSet, Written, Moved, get_next, next_of, run, mark, move, begin,
  start,
}
use gizmosql_odbc_driver.ResultSet.Placed.{placed, of_column}
use gizmosql_odbc_driver.ResultSet.Segment.{ReadsCells, AreServed, rows_at}
use gizmosql_odbc_driver.ResultSet.Rows.{buffered, ahead, IsAt, IsRead, move_from-IsRead}

length-map_ok : {C : Type 0} (cs : List C) → length (map (λ c. ok c) cs) ≡ length cs
length-map_ok [] = refl
length-map_ok (c ∷ cs) = ap suc (length-map_ok cs)

minus_zero : (n : ℕ) → n - 0 ≡ n
minus_zero n = omega arith

take_nil {ℓ} : {A : Type ℓ} (n : ℕ) → take {A = A} n [] ≡ []
take_nil zero = refl
take_nil (suc n) = refl

drop_nil {ℓ} : {A : Type ℓ} (n : ℕ) → drop {A = A} n [] ≡ []
drop_nil zero = refl
drop_nil (suc n) = refl

module _ {C V : Type 0} (accessors : Accessors C V) (law : ReadsCells accessors) (k : ℕ)
    (b : ColumnBinding) (columns : List (Option ColumnBinding)) (schema : List ArrowType) where
  -- A result set before its first Move, with the chunks `cs` to come.
  pub record IsFresh (s : ResultSet C) (cs : List C) : Type 0 where
    pub no_chunk : s.current_chunk ≡ none
    pub to_come : s.chunk_buffer ≡ map ok cs
    pub first_row : s.current_row ≡ 0
    pub bound : get_elem? s.columns k ≡ some (some b)
    pub served : AreServed accessors law 0 s.columns
    pub framed : (s.columns ≡ columns) × (s.schema ≡ schema)

  -- Column `k` is bound to `b`, the bound columns are served, and `values` are those of its values that were not read yet.
  unfoldable pub IsReady : ResultSet C → List V → Type 0
  IsReady s values =
      ((chunk : C) × (cs : List C) × IsAt accessors law k b columns schema s chunk cs
        × (values ≡ ahead accessors law k b columns schema chunk s.current_row cs))
      ⊎ ((cs : List C) × IsFresh s cs × (values ≡ buffered accessors law k b columns schema cs))

  -- What a call of Move does for the column.
  pub record IsMoved (rows offset type : ℕ) (values : List V) (moved : Moved C V) : Type 0 where
    pub number : moved.1 ≡ min rows (length values)
    pub placed_rows :
        of_column k moved.2.log ≡ rows_at accessors law b offset type 0 (take rows values)
    pub ready : IsReady moved.0 (drop rows values)

  module _ (rows offset type : ℕ) where
    run-IsMoved :
        (s : ResultSet C) (status : Option (ℕ → ℕ)) (chunk : C) (cs : List C)
        → IsAt accessors law k b columns schema s chunk cs
        → (moved : Moved C V) × (run accessors rows offset type s
              (record { log = []; status = status })
            ≡ returns moved)
          × IsMoved rows offset type
              (ahead accessors law k b columns schema chunk s.current_row cs)
              moved
    unfolding IsReady of_column
    run-IsMoved s status chunk cs p =
        let fuel = rows + length s.chunk_buffer + 1 in
        let w : Written V = record { log = []; status = status } in
        let size : length s.chunk_buffer ≡ length cs = ap length p.to_come ∙ length-map_ok cs in
        let (s', f', w', e, r0) =
          move_from-IsRead accessors law k b columns schema offset type fuel rows 0 s w chunk cs p
            (omega arith) (omega (arith, size)) in
        let r =
          subst
            (λ m.
              IsRead accessors law k b columns schema offset type 0 m
                (ahead accessors law k b columns schema chunk s.current_row cs) w s' f' w')
            (minus_zero rows) r0 in
        (
          _,
          ap (λ o. o >>= mark accessors rows) e,
          record {
            number = omega (arith, r.number);
            placed_rows = r.placed_rows;
            ready = inl (r.chunk, r.cs, r.is_at, sym r.left);
          },
        )

    fresh-IsMoved :
        (s : ResultSet C) (status : Option (ℕ → ℕ)) (cs : List C)
        → IsFresh s cs
        → (moved : Moved C V) × (move accessors s rows offset type status ≡ returns moved)
          × IsMoved rows offset type (buffered accessors law k b columns schema cs) moved
    unfolding IsReady of_column move get_next placed
    fresh-IsMoved s status [] f =
        let w : Written V = record { log = []; status = status } in
        (
          (s, 0, w),
          ap (begin accessors rows offset type s w) f.no_chunk
              ∙ ap (λ l. next_of accessors s l >>= start accessors rows offset type s w) f.to_come,
          record {
            number = omega arith;
            placed_rows = sym (ap (rows_at accessors law b offset type 0) (take_nil rows));
            ready = inr ([], f, drop_nil rows);
          },
        )
    fresh-IsMoved s status (c ∷ cs) f =
        let w : Written V = record { log = []; status = status } in
        let s1 : ResultSet C = record s {
          chunk_buffer = map ok cs;
          current_chunk = some (accessors.transform c);
        } in
        let (moved, e, r) = run-IsMoved s1 status (accessors.transform c) cs (record {
          at_chunk = refl;
          to_come = refl;
          inside = omega (arith, f.first_row);
          bound = f.bound;
          served = f.served;
          framed = f.framed;
        }) in
        (
          moved,
          ap (begin accessors rows offset type s w) f.no_chunk
              ∙ ap (λ l. next_of accessors s l >>= start accessors rows offset type s w) f.to_come
              ∙ e,
          subst
              (λ n.
                IsMoved rows offset type
                  (drop n (law.values (accessors.transform c) k)
                    ++ buffered accessors law k b columns schema cs)
                  moved)
              f.first_row r,
        )

    -- If the accessors of the bound columns serve their bindings, Move reads the next rows of a bound
    -- column: as many as are asked for, or all that are left if
    -- those are fewer. It puts them in order at the column's buffer and indicator, moved by the bind
    -- offset, a cell length and eight bytes apart, or the size of a row of the application, and leaves
    -- the others to be read. Where chunks begin and end makes no difference.
    pub move-IsMoved :
        (s : ResultSet C) (status : Option (ℕ → ℕ)) (values : List V)
        → IsReady s values
        → (moved : Moved C V) × (move accessors s rows offset type status ≡ returns moved)
          × IsMoved rows offset type values moved
    unfolding IsReady move
    move-IsMoved s status values (inl (chunk, cs, p, e)) =
        let w : Written V = record { log = []; status = status } in
        let (moved, eq, r) = run-IsMoved s status chunk cs p in
        (
          moved,
          ap (begin accessors rows offset type s w) p.at_chunk ∙ eq,
          subst (λ l. IsMoved rows offset type l moved) (sym e) r,
        )
    move-IsMoved s status values (inr (cs, f, e)) =
        let (moved, eq, r) = fresh-IsMoved s status cs f in
        (moved, eq, subst (λ l. IsMoved rows offset type l moved) (sym e) r)
