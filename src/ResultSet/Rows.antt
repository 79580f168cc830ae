-- ===== src/ResultSet/Rows.antt =====
-- `Move` of flight_sql/flight_sql_result_set.cc reads the rows in order, whatever chunks they come in.
use native.Mathlib.Decide.{ℕ_discrete}
use gizmosql_odbc_driver.Prelude.{
  ℕ, zero, suc, ◌+◌, ◌-◌, ◌*◌, ◌≤◌, ◌<◌, min, ◌≡◌, ◌≢◌, refl, sym, ap, ◌∙◌, subst, false,
  Bool-cases, inl, inr, Option, some, List, [], ◌∷◌, ◌++◌, map, length, take, drop, get_elem?, ltb,
  ◌==◌, if◌then◌else◌, arith, length-append, length-take, length-drop, take-append-drop,
}
use gizmosql_odbc_driver.Exceptions.{ok, Outcome, returns, ◌>>=◌}
use gizmosql_odbc_driver.Types.{ArrowType}
use gizmosql_odbc_driver.ResultSet.{
  ColumnBinding, Write, Accessors, ResultSet, Written, Moved, again, shift, move_from, step,
  segment, resume, rows_to_fetch, get_next, next_of, rewind, advanced, fetch_columns, deref,
}
use gizmosql_odbc_driver.ResultSet.Placed.{
  placed, placed-append, shift_twice, of_column, take-append, drop-append, drop-drop, drop-all,
}
use gizmosql_odbc_driver.ResultSet.Segment.{
  ReadsCells, AreServed, rows_at, data_stride, length_stride, fetch_columns-rows_at, append_assoc,
  append_nil,
}

test_zero : (n : ℕ) → n ≢ 0 → (n == 0) ≡ false
test_zero n h = ground arith

take_none {ℓ} : {A : Type ℓ} (n : ℕ) (xs : List A) → min n (length xs) ≡ 0 → take n xs ≡ []
take_none zero xs h = refl
take_none (suc n) [] h = refl
take_none (suc n) (x ∷ xs) h = absurd (omega arith)

drop_none {ℓ} : {A : Type ℓ} (n : ℕ) (xs : List A) → min n (length xs) ≡ 0 → drop n xs ≡ xs
drop_none zero xs h = refl
drop_none (suc n) [] h = refl
drop_none (suc n) (x ∷ xs) h = absurd (omega arith)

module _ {C V : Type 0} (accessors : Accessors C V) (law : ReadsCells accessors) (k : ℕ)
    (b : ColumnBinding) (columns : List (Option ColumnBinding)) (schema : List ArrowType) where
  -- The values of column `k` in chunks that are still in the buffer.
  abbrev pub buffered : List C → List V
  buffered [] = []
  buffered (c ∷ cs) = law.values (accessors.transform c) k ++ buffered cs

  -- The values of the column that are still to be read.
  abbrev pub ahead : C → ℕ → List C → List V
  ahead chunk row cs = drop row (law.values chunk k) ++ buffered cs

  -- The result set is in chunk `chunk` with the chunks `cs` to come, and column `k` is bound to `b`.
  pub record IsAt (s : ResultSet C) (chunk : C) (cs : List C) : Type 0 where
    pub at_chunk : s.current_chunk ≡ some chunk
    pub to_come : s.chunk_buffer ≡ map ok cs
    pub inside : s.current_row ≤ accessors.num_rows chunk
    pub bound : get_elem? s.columns k ≡ some (some b)
    pub served : AreServed accessors law 0 s.columns
    pub framed : (s.columns ≡ columns) × (s.schema ≡ schema)

  -- What reading `wanted` rows, of which the first is number `fetched`, does.
  pub record IsRead (offset type fetched wanted : ℕ) (values : List V) (w : Written V)
      (s' : ResultSet C) (fetched' : ℕ) (w' : Written V) : Type 0 where
    pub chunk : C
    pub cs : List C
    pub is_at : IsAt s' chunk cs
    pub number : fetched' ≡ fetched + min wanted (length values)
    pub left : ahead chunk s'.current_row cs ≡ drop wanted values
    pub placed_rows :
        of_column k w'.log
        ≡ of_column k w.log ++ rows_at accessors law b offset type fetched (take wanted values)

  module _ (offset type : ℕ) where
    abbrev at_number : ℕ → List V → List (Write V)
    at_number fetched vs = rows_at accessors law b offset type fetched vs

    at_number-append :
        (fetched n : ℕ) (xs ys : List V)
        → length xs ≡ n
        → at_number fetched (xs ++ ys) ≡ at_number fetched xs ++ at_number (fetched + n) ys
    at_number-append fetched n xs ys h =
        let da = data_stride accessors law b type in
        let di = length_stride accessors law type in
        let i = shift offset b.strlen_buffer in
        placed-append _ _ da di xs ys
        ∙ ap
            (λ a.
              at_number fetched xs
              ++ placed a (shift (di * length xs) (shift (di * fetched) i)) da di ys)
            (omega (arith, ap (λ m. da * m) h))
        ∙ ap
            (λ j.
              at_number fetched xs ++ placed (b.buffer + offset + da * (fetched + n)) j da di ys)
            (shift_twice (di * fetched) (di * length xs) (di * (fetched + n)) i
              (omega (arith, ap (λ m. di * m) h)))

    step_in_chunk :
        (rows fetched : ℕ) (s : ResultSet C) (w : Written V) (chunk : C)
        → s.current_chunk ≡ some chunk
        → step accessors rows offset type s fetched w
          ≡ segment accessors offset type s chunk fetched w
              (rows_to_fetch accessors s chunk rows fetched)
    unfolding step
    step_in_chunk rows fetched s w chunk h =
        ap
          (λ o. deref o >>= λ chunk.
            segment accessors offset type s chunk fetched w
              (rows_to_fetch accessors s chunk rows fetched))
          h

    -- A round that finds rows in the chunk.
    step_rows :
        (rows fetched n : ℕ) (s : ResultSet C) (w : Written V) (chunk : C) (cs : List C)
        → IsAt s chunk cs
        → n ≡ rows_to_fetch accessors s chunk rows fetched
        → n ≢ 0
        → (w' : Written V) × (step accessors rows offset type s fetched w
            ≡ returns (again (record s { current_row = s.current_row + n }) (fetched + n) w'))
          × (of_column k w'.log
              ≡ of_column k w.log
                ++ at_number fetched (take n (drop s.current_row (law.values chunk k))))
    step_rows rows fetched n s w chunk cs p h nonzero =
        let (w', e, log) =
          fetch_columns-rows_at accessors law chunk offset type s.current_row fetched n k 0 k
            s.columns b w p.served (omega (arith, h, p.inside)) p.bound (omega arith) in
        (
          w',
          step_in_chunk rows fetched s w chunk p.at_chunk
              ∙ ap (segment accessors offset type s chunk fetched w) (sym h)
              ∙ ap
                  (λ t.
                    if t
                    then get_next accessors s >>= rewind accessors w fetched
                    else fetch_columns accessors chunk offset type s.current_row fetched n 0
                        s.columns w
                      >>= advanced accessors s fetched n)
                  (test_zero n nonzero)
              ∙ ap (λ o. o >>= advanced accessors s fetched n) e,
          log,
        )

    -- A round at the end of the chunk takes the next one, or stops.
    step_next :
        (rows fetched : ℕ) (s : ResultSet C) (w : Written V) (chunk : C) (cs : List C)
        → IsAt s chunk cs
        → rows_to_fetch accessors s chunk rows fetched ≡ 0
        → step accessors rows offset type s fetched w
          ≡ (next_of accessors s (map ok cs) >>= rewind accessors w fetched)
    unfolding get_next
    step_next rows fetched s w chunk cs p h =
        step_in_chunk rows fetched s w chunk p.at_chunk
        ∙ ap (segment accessors offset type s chunk fetched w) h
        ∙ ap (λ l. next_of accessors s l >>= rewind accessors w fetched) p.to_come

    -- Nothing is wanted, or nothing is left.
    nothing :
        (fetched wanted : ℕ) (s : ResultSet C) (w : Written V) (chunk : C) (cs : List C)
        → IsAt s chunk cs
        → min wanted (length (ahead chunk s.current_row cs)) ≡ 0
        → IsRead offset type fetched wanted (ahead chunk s.current_row cs) w s fetched w
    unfolding placed
    nothing fetched wanted s w chunk cs p h =
        let values = ahead chunk s.current_row cs in
        record {
          chunk = chunk;
          cs = cs;
          is_at = p;
          number = omega (arith, h);
          left = sym (drop_none wanted values h);
          placed_rows = sym (
              ap (λ l. of_column k w.log ++ at_number fetched l) (take_none wanted values h)
              ∙ append_nil (of_column k w.log));
        }

    -- First `n` rows, the values `xs`, and then the others.
    further :
        (fetched wanted n f' : ℕ) (xs ys : List V) (w w1 w' : Written V) (s' : ResultSet C)
        → length xs ≡ n
        → n ≤ wanted
        → of_column k w1.log ≡ of_column k w.log ++ at_number fetched xs
        → IsRead offset type (fetched + n) (wanted - n) ys w1 s' f' w'
        → IsRead offset type fetched wanted (xs ++ ys) w s' f' w'
    further fetched wanted n f' xs ys w w1 w' s' size le log r = record {
      chunk = r.chunk;
      cs = r.cs;
      is_at = r.is_at;
      number = omega (arith, r.number, length-append xs ys, size, le);
      left = r.left ∙ sym (drop-append wanted (wanted - n) xs ys (omega arith));
      placed_rows =
          r.placed_rows
          ∙ ap (λ l. l ++ at_number (fetched + n) (take (wanted - n) ys)) log
          ∙ append_assoc (of_column k w.log) _ _
          ∙ ap (λ l. of_column k w.log ++ l)
              (sym (at_number-append fetched n xs (take (wanted - n) ys) size)
                ∙ ap (at_number fetched)
                    (sym (take-append wanted (wanted - n) xs ys (omega arith))));
    }

    -- What a call with some fuel gives.
    abbrev pub Reads : ℕ → ℕ → List V → Written V → Outcome (Moved C V) → Type 0
    Reads fetched wanted values w outcome =
        (s' : ResultSet C) × (f' : ℕ) × (w' : Written V) × (outcome ≡ returns (s', f', w'))
        × IsRead offset type fetched wanted values w s' f' w'

    abbrev after_step : ℕ → ℕ → ResultSet C → ℕ → Written V → Outcome (Moved C V)
    after_step fuel rows s fetched w =
        step accessors rows offset type s fetched w
        >>= resume accessors (move_from accessors fuel rows offset type) (s, fetched, w)

    at_end :
        (fuel rows fetched : ℕ) (s : ResultSet C) (w : Written V) (chunk : C) (cs : List C)
        → IsAt s chunk cs
        → fetched < rows
        → rows_to_fetch accessors s chunk rows fetched ≡ 0
        → ((s1 : ResultSet C) (c : C) (cs1 : List C)
            → IsAt s1 c cs1
            → length cs1 < length cs
            → Reads fetched
                (rows - fetched)
                (ahead c s1.current_row cs1)
                w
                (move_from accessors fuel rows offset type s1 fetched w))
        → Reads fetched
            (rows - fetched)
            (ahead chunk s.current_row cs)
            w
            (after_step fuel rows s fetched w)
    at_end fuel rows fetched s w chunk [] p lt z resumed =
        let ended : length (drop s.current_row (law.values chunk k)) ≡ 0 =
          omega (arith, length-drop s.current_row (law.values chunk k), law.sized chunk k, z, lt) in
        (
          s,
          fetched,
          w,
          ap
              (λ o.
                o >>= resume accessors (move_from accessors fuel rows offset type) (s, fetched, w))
              (step_next rows fetched s w chunk [] p z),
          nothing fetched (rows - fetched) s w chunk [] p
              (omega (arith, ended, length-append (drop s.current_row (law.values chunk k)) [])),
        )
    at_end fuel rows fetched s w chunk (c ∷ cs) p lt z resumed =
        let s1 : ResultSet C = record s {
          chunk_buffer = map ok cs;
          current_chunk = some (accessors.transform c);
          current_row = 0;
        } in
        let (s', f', w', e, r) =
          resumed s1 (accessors.transform c) cs
            (record {
              at_chunk = refl;
              to_come = refl;
              inside = omega arith;
              bound = p.bound;
              served = p.served;
              framed = p.framed;
            })
            (omega arith) in
        let ended : drop s.current_row (law.values chunk k) ≡ [] =
          drop-all s.current_row (law.values chunk k) (
            omega
              (arith, length-drop s.current_row (law.values chunk k), law.sized chunk k, z, lt)) in
        (
          s',
          f',
          w',
          ap
                (λ o.
                  o
                  >>= resume accessors (move_from accessors fuel rows offset type) (s, fetched, w))
                (step_next rows fetched s w chunk (c ∷ cs) p z)
              ∙ e,
          subst
              (λ l. IsRead offset type fetched (rows - fetched) (l ++ buffered (c ∷ cs)) w s' f' w')
              (sym ended) r,
        )

    inside_chunk :
        (fuel rows fetched n : ℕ) (s : ResultSet C) (w : Written V) (chunk : C) (cs : List C)
        → IsAt s chunk cs
        → fetched < rows
        → n ≡ rows_to_fetch accessors s chunk rows fetched
        → n ≢ 0
        → ((s1 : ResultSet C) (w1 : Written V)
            → IsAt s1 chunk cs
            → Reads
                (fetched + n)
                (rows - (fetched + n))
                (ahead chunk s1.current_row cs)
                w1
                (move_from accessors fuel rows offset type s1 (fetched + n) w1))
        → Reads fetched
            (rows - fetched)
            (ahead chunk s.current_row cs)
            w
            (after_step fuel rows s fetched w)
    inside_chunk fuel rows fetched n s w chunk cs p lt h nonzero more =
        let (w1, e1, log1) = step_rows rows fetched n s w chunk cs p h nonzero in
        let s1 : ResultSet C = record s { current_row = s.current_row + n } in
        let (s', f', w', e, r) = more s1 w1 (record {
          at_chunk = p.at_chunk;
          to_come = p.to_come;
          inside = omega (arith, h, p.inside);
          bound = p.bound;
          served = p.served;
          framed = p.framed;
        }) in
        let values = drop s.current_row (law.values chunk k) in
        (
          s',
          f',
          w',
          ap
                (λ o.
                  o
                  >>= resume accessors (move_from accessors fuel rows offset type) (s, fetched, w))
                e1
              ∙ e,
          subst (λ l. IsRead offset type fetched (rows - fetched) l w s' f' w')
              (ap (λ l. take n values ++ (l ++ buffered cs))
                  (sym (drop-drop s.current_row n (s.current_row + n) (law.values chunk k) refl))
                ∙ sym (append_assoc (take n values) (drop n values) (buffered cs))
                ∙ ap (λ l. l ++ buffered cs) (take-append-drop n values))
              (further fetched (rows - fetched) n f' (take n values) (ahead chunk s1.current_row cs)
                w w1 w' s'
                (omega (
                  arith,
                  length-take n values,
                  length-drop s.current_row (law.values chunk k),
                  law.sized chunk k,
                  h,
                ))
                (omega (arith, h)) log1
                (subst
                  (λ m.
                    IsRead offset type (fetched + n) m (ahead chunk s1.current_row cs) w1 s' f' w')
                  (omega arith) r)),
        )

    pub move_from-IsRead :
        (fuel rows fetched : ℕ) (s : ResultSet C) (w : Written V) (chunk : C) (cs : List C)
        → IsAt s chunk cs
        → fetched ≤ rows
        → rows - fetched + length cs + 1 ≤ fuel
        → Reads fetched
            (rows - fetched)
            (ahead chunk s.current_row cs)
            w
            (move_from accessors fuel rows offset type s fetched w)
    unfolding move_from
    move_from-IsRead zero rows fetched s w chunk cs p le enough = absurd (omega arith)
    move_from-IsRead (suc fuel) rows fetched s w chunk cs p le enough =
        elim (Bool-cases (ltb fetched rows)) [
          | inr e ↦ (
            s,
            fetched,
            w,
            ap (λ t. if t then after_step fuel rows s fetched w else returns (s, fetched, w)) e,
            nothing fetched (rows - fetched) s w chunk cs p (ground arith),
          )
          | inl e ↦
              let lt : fetched < rows = ground arith in
              let n = rows_to_fetch accessors s chunk rows fetched in
              let (s', f', w', eq, r) : Reads fetched (rows - fetched)
                  (ahead chunk s.current_row cs) w (after_step fuel rows s fetched w) =
                elim (ℕ_discrete n 0) [
                  | yes z ↦ at_end fuel rows fetched s w chunk cs p lt z (λ s1 c cs1 q shorter.
                      move_from-IsRead fuel rows fetched s1 w c cs1 q le (omega arith))
                  | no h ↦ inside_chunk fuel rows fetched n s w chunk cs p lt refl h (λ s1 w1 q.
                      move_from-IsRead fuel rows (fetched + n) s1 w1 chunk cs q (omega arith)
                        (omega (arith, h)))
                ] in
              (
                s',
                f',
                w',
                ap (λ t. if t then after_step fuel rows s fetched w else returns (s, fetched, w)) e
                    ∙ eq,
                r,
              )
        ]
