-- ===== src/Statement/Step.antt =====
-- One `Fetch` of odbc_impl/ODBCStatement.cc over a result set that reads forward.
use gizmosql_odbc_driver.Prelude.{
  ℕ, suc, ◌+◌, ◌-◌, ◌%◌, ◌^◌, min, ◌≡◌, ◌≢◌, ◌≤◌, ◌<◌, refl, sym, ap, ◌∙◌, subst, Bool, true, false,
  not, some, List, length, get_elem?, ◌==◌, if◌then◌else◌, arith,
}
use gizmosql_odbc_driver.Exceptions.{Outcome, returns, ◌>>=◌}
use gizmosql_odbc_driver.Descriptor.{Descriptor}
use gizmosql_odbc_driver.Descriptor.Record.{DescriptorRecord}
use gizmosql_odbc_driver.Statement.{
  Statement, Memory, ResultSets, deref, put, store, store-same, store-other,
}
use gizmosql_odbc_driver.Statement.Forward.{
  ReadsForward, IsInStep, AreAccepted, bind_columns-IsBoundFrom,
}
use gizmosql_odbc_driver.Statement.Fetch.{
  Fetched, write_cell, fetch_with, rows_to_move, bind_columns, binding_of, propagate, moved, fetch,
  fetch_from, fetch_more, get_bind_offset, get_bound_struct_offset, set_rows_processed,
  notify_bindings_have_propagated,
}

write_cell-cell :
    (a n : ℕ) (m : Memory)
    → a ≢ 0
    → ((write_cell a n m).cell a ≡ n) × ((write_cell a n m).descriptor ≡ m.descriptor)
write_cell-cell a n m nonzero =
    let e : (a == 0) ≡ false = ground arith in
    (
      ap (λ b. (if b then m else record m { cell = store a n m.cell }).cell a) e
          ∙ store-same a n m.cell,
      ap (λ b. (if b then m else record m { cell = store a n m.cell }).descriptor) e,
    )

-- What `Fetch` needs: an open result set with `left` rows, read in steps of `size` rows, whose
-- number goes to the cell `counter`.
pub record IsReading {R : Type 0} (set : ResultSets R) (law : ReadsForward set) (s : Statement R)
    (m : Memory) (size left counter : ℕ) : Type 0 where
  pub r : R
  pub ard : Descriptor
  pub ird : Descriptor
  pub is_open : s.curren_result ≡ some r
  pub sound : law.sound r
  pub accepted : AreAccepted law ard.records (length ird.records)
  pub width : length ird.records ≡ law.columns
  pub rows : law.remaining r ≡ left
  pub going : s.has_reached_end_of_result ≡ false
  pub unlimited : s.max_rows ≡ 0
  pub ard_at : m.descriptor s.current_ard ≡ some ard
  pub ird_at : m.descriptor s.ird ≡ some ird
  pub apart : s.ird ≢ s.current_ard
  pub array : ard.array_size ≡ size
  pub counts : ird.rows_processed_ptr ≡ counter
  pub in_step : ard.has_bindings_changed ≡ false → IsInStep law ard ird r

-- The result is used up, and `Fetch` will say so.
pub record IsEnded {R : Type 0} (s : Statement R) (m : Memory) (counter : ℕ) : Type 0 where
  pub ard : Descriptor
  pub ird : Descriptor
  pub ended : s.has_reached_end_of_result ≡ true
  pub ard_at : m.descriptor s.current_ard ≡ some ard
  pub ird_at : m.descriptor s.ird ≡ some ird
  pub counts : ird.rows_processed_ptr ≡ counter

module _ {R : Type 0} (set : ResultSets R) (law : ReadsForward set) (s : Statement R) where
  abbrev propagate_if : Bool → Descriptor → Descriptor → R → Memory → Outcome (R × Memory)
  propagate_if b ard ird r m =
      if b
      then bind_columns set ard.records 0 (length ird.records) r
        >>= (λ r'. returns (r', put s.current_ard (notify_bindings_have_propagated ard) m))
      else returns (r, m)

  -- Propagating bindings changes no descriptor but the row descriptor's flag, and moves nothing.
  record IsKept (ard ird : Descriptor) (r r' : R) (m m' : Memory) : Type 0 where
    pub ard' : Descriptor
    pub sound : law.sound r'
    pub same_rows : law.remaining r' ≡ law.remaining r
    pub ard_at : m'.descriptor s.current_ard ≡ some ard'
    pub ird_at : m'.descriptor s.ird ≡ m.descriptor s.ird
    pub array : ard'.array_size ≡ ard.array_size
    pub records : ard'.records ≡ ard.records
    pub in_step : IsInStep law ard ird r'

  propagate_if-IsKept :
      (b : Bool) (ard ird : Descriptor) (r : R) (m : Memory)
      → m.descriptor s.current_ard ≡ some ard
      → s.ird ≢ s.current_ard
      → law.sound r
      → AreAccepted law ard.records (length ird.records)
      → (b ≡ false → IsInStep law ard ird r)
      → (r' : R) × (m' : Memory) × (propagate_if b ard ird r m ≡ returns (r', m'))
        × IsKept ard ird r r' m m'
  unfolding notify_bindings_have_propagated IsInStep
  propagate_if-IsKept false ard ird r m at apart sound accepted step = (
    r,
    m,
    refl,
    record {
      ard' = ard;
      sound = sound;
      same_rows = refl;
      ard_at = at;
      ird_at = refl;
      array = refl;
      records = refl;
      in_step = step refl;
    },
  )
  propagate_if-IsKept true ard ird r m at apart sound accepted step =
      let b =
        bind_columns-IsBoundFrom set law ard.records 0 (length ird.records) (length ird.records) r
          sound accepted (omega arith) in
      (
        b.0,
        put s.current_ard (notify_bindings_have_propagated ard) m,
        ap
            (λ o.
              o >>= (λ r'. returns (r', put s.current_ard (notify_bindings_have_propagated ard) m)))
            b.1,
        record {
          ard' = notify_bindings_have_propagated ard;
          sound = b.2.sound;
          same_rows = b.2.same_rows;
          ard_at = store-same s.current_ard _ m.descriptor;
          ird_at = store-other s.current_ard s.ird _ m.descriptor apart;
          array = refl;
          records = refl;
          in_step = λ j lt. b.2.inside j (omega arith) (omega arith);
        },
      )

  propagate-IsKept :
      (ard ird : Descriptor) (r : R) (m : Memory)
      → m.descriptor s.current_ard ≡ some ard
      → s.ird ≢ s.current_ard
      → law.sound r
      → AreAccepted law ard.records (length ird.records)
      → (ard.has_bindings_changed ≡ false → IsInStep law ard ird r)
      → (r' : R) × (m' : Memory) × (propagate set s ard ird r m ≡ returns (r', m'))
        × IsKept ard ird r r' m m'
  unfolding propagate
  propagate-IsKept ard ird r m at apart sound accepted step =
      propagate_if-IsKept ard.has_bindings_changed ard ird r m at apart sound accepted step

  -- `Fetch` with everything it looks up found.
  fetch_open :
      (m : Memory) (size left counter : ℕ) (p : IsReading set law s m size left counter)
      → fetch set s m size
        ≡ (propagate set s p.ard p.ird p.r m >>= fetch_from set s size p.ard p.ird)
  unfolding fetch
  fetch_open m size left counter p =
      ap (λ o. deref o >>= fetch_with set s m size) p.ird_at
      ∙ ap
          (λ b.
            if b
            then returns
                (record { statement = s; memory = set_rows_processed p.ird 0 m; fetched = false })
            else deref (m.descriptor s.current_ard) >>= λ ard. deref s.curren_result >>= λ r.
                fetch_more set s m (rows_to_move set s size) ard p.ird r)
          p.going
      ∙ ap
          (λ o. deref o >>= λ ard.
            deref s.curren_result >>= λ r. fetch_more set s m (rows_to_move set s size) ard p.ird r)
          p.ard_at
      ∙ ap (λ o. deref o >>= λ r. fetch_more set s m (rows_to_move set s size) p.ard p.ird r)
          p.is_open
      ∙ ap
          (λ k.
            fetch_more set s m
              (if k == 0 then size else min size ((k + 2 ^ 64 - s.row_number) % 2 ^ 64)) p.ard p.ird
              p.r)
          p.unlimited

  set_rows_processed-cell :
      (d : Descriptor) (n counter : ℕ) (m : Memory)
      → d.rows_processed_ptr ≡ counter
      → counter ≢ 0
      → ((set_rows_processed d n m).cell counter ≡ n)
        × ((set_rows_processed d n m).descriptor ≡ m.descriptor)
  unfolding set_rows_processed
  set_rows_processed-cell d n counter m e nonzero =
      subst
        (λ a.
          ((write_cell a n m).cell counter ≡ n) × ((write_cell a n m).descriptor ≡ m.descriptor))
        (sym e) (write_cell-cell counter n m nonzero)

  -- What one `Fetch` leaves behind when it reads on.
  pub record IsStepped (m : Memory) (ard ird : Descriptor) (size left counter : ℕ) (f : Fetched R)
      : Type 0 where
    pub counted : f.memory.cell counter ≡ min size left
    pub answer : f.fetched ≡ not (min size left == 0)
    pub numbered : f.statement.row_number ≡ (s.row_number + min size left) % 2 ^ 64
    pub bound : (r' : R) × (f.statement.curren_result ≡ some r') × IsInStep law ard ird r'
    pub more : size ≤ left → IsReading set law f.statement f.memory size (left - size) counter
    pub last : left < size → IsEnded f.statement f.memory counter

  -- A `Fetch` of as many rows as the row array has, on an open result that reads forward and whose
  -- columns accept the bindings of the row descriptor, succeeds: the row count is the lesser of the
  -- array size and the rows that were left, the result is false exactly if it is 0, the row number
  -- grows by it, the columns are bound as they take the descriptor's records, and the statement reads
  -- on if the batch was full and is at its end if it was not.
  pub fetch-IsStepped :
      (m : Memory) (size left counter : ℕ) (p : IsReading set law s m size left counter)
      → counter ≢ 0
      → (f : Fetched R) × (fetch set s m size ≡ returns f)
        × IsStepped m p.ard p.ird size left counter f
  unfolding moved IsInStep
  fetch-IsStepped m size left counter p nonzero =
      let (r', m', e, k) =
        propagate-IsKept p.ard p.ird p.r m p.ard_at p.apart p.sound p.accepted p.in_step in
      let (r'', e', sound, gone, kept) =
        law.moves r' size (get_bind_offset p.ard m') (get_bound_struct_offset p.ard)
          p.ird.array_status_ptr k.sound
          (λ j lt. (
            binding_of (get_elem? p.ard.records j),
            p.accepted j (omega (arith, p.width)),
            k.in_step j (omega (arith, p.width)),
          )) in
      let c =
        set_rows_processed-cell p.ird (min size (law.remaining r')) counter m' p.counts nonzero in
      let same : law.remaining r' ≡ left = k.same_rows ∙ p.rows in
      (
        _,
        fetch_open m size left counter p
            ∙ ap (λ o. o >>= fetch_from set s size p.ard p.ird) e
            ∙ ap (λ o. o >>= moved set s p.ird size m') e',
        record {
          counted = c.0 ∙ ap (min size) same;
          answer = ap (λ n. not (min size n == 0)) same;
          numbered = ap (λ n. (s.row_number + min size n) % 2 ^ 64) same;
          bound = (r'', refl, λ j lt. kept (suc j) ∙ k.in_step j lt);
          more = λ le. record {
            r = r'';
            ard = k.ard';
            ird = p.ird;
            is_open = refl;
            sound = sound;
            accepted =
                subst (λ (rs : List DescriptorRecord). AreAccepted law rs (length p.ird.records))
                  (sym k.records) p.accepted;
            width = p.width;
            rows = gone ∙ ap (λ n. n - size) same;
            going = ground (arith, same);
            unlimited = p.unlimited;
            ard_at = ap (λ f. f s.current_ard) c.1 ∙ k.ard_at;
            ird_at = ap (λ f. f s.ird) c.1 ∙ k.ird_at ∙ p.ird_at;
            apart = p.apart;
            array = k.array ∙ p.array;
            counts = p.counts;
            in_step = λ (h : k.ard'.has_bindings_changed ≡ false). λ j lt.
                kept (suc j)
                ∙ k.in_step j lt
                ∙ ap
                    (λ (rs : List DescriptorRecord). law.seen (suc j) (binding_of (get_elem? rs j)))
                    (sym k.records);
          };
          last = λ lt. record {
            ard = k.ard';
            ird = p.ird;
            ended = ground (arith, same);
            ard_at = ap (λ f. f s.current_ard) c.1 ∙ k.ard_at;
            ird_at = ap (λ f. f s.ird) c.1 ∙ k.ird_at ∙ p.ird_at;
            counts = p.counts;
          };
        },
      )

  -- After the end, `Fetch` counts no row and touches no result set.
  pub fetch_ended :
      (m : Memory) (rows counter : ℕ) (p : IsEnded s m counter)
      → counter ≢ 0
      → (f : Fetched R) × (fetch set s m rows ≡ returns f)
        × (f.fetched ≡ false)
        × (f.memory.cell counter ≡ 0)
        × (f.statement ≡ s)
  unfolding fetch
  fetch_ended m rows counter p nonzero = (
    _,
    ap (λ o. deref o >>= fetch_with set s m rows) p.ird_at
        ∙ ap
            (λ b.
              if b
              then returns
                  (record { statement = s; memory = set_rows_processed p.ird 0 m; fetched = false })
              else deref (m.descriptor s.current_ard) >>= λ ard. deref s.curren_result >>= λ r.
                  fetch_more set s m (rows_to_move set s rows) ard p.ird r)
            p.ended,
    refl,
    (set_rows_processed-cell p.ird 0 counter m p.counts nonzero).0,
    refl,
  )
