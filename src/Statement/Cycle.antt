-- ===== src/Statement/Cycle.antt =====
-- A query from the closed cursor to SQL_NO_DATA: `closeCursor`, `ExecuteDirect` and the calls of
-- `Fetch` of odbc_impl/ODBCStatement.cc.
use mathlib.Core.Bool.{false≢true}
use gizmosql_odbc_driver.Prelude.{
  ℕ, suc, ◌+◌, ◌*◌, ◌<◌, ◌≡◌, ◌≢◌, refl, sym, ap, ◌∙◌, subst, true, false, none, some, length,
  arith, List, [], ◌∷◌, map,
}
use gizmosql_odbc_driver.Exceptions.{Outcome, returns, ◌>>=◌}
use gizmosql_odbc_driver.Descriptor.{Descriptor}
use gizmosql_odbc_driver.Descriptor.Record.{Bytes}
use gizmosql_odbc_driver.Descriptor.Metadata.{populate_from_result_set_metadata, record_of}
use gizmosql_odbc_driver.Statement.{
  Statement, Memory, ResultSets, deref, put, store-same, store-other,
}
use gizmosql_odbc_driver.Statement.Forward.{ReadsForward, AreAccepted}
use gizmosql_odbc_driver.Statement.Step.{IsReading}
use gizmosql_odbc_driver.Statement.Draining.{fetch_all, fetch_all-batches, batches}
use gizmosql_odbc_driver.Statement.Cursor.{
  Handle, Spi, close_cursor, closed_with, execute_direct, executed, populate_with, set_prepared,
  notify_bindings_have_changed,
}

-- The descriptors that a statement reads through, and what they say.
pub record IsSetUp {R : Type 0} (s : Statement R) (m : Memory) (size counter : ℕ) : Type 0 where
  pub ard : Descriptor
  pub ird : Descriptor
  pub unlimited : s.max_rows ≡ 0
  pub ard_at : m.descriptor s.current_ard ≡ some ard
  pub ird_at : m.descriptor s.ird ≡ some ird
  pub apart : s.ird ≢ s.current_ard
  pub array : ard.array_size ≡ size
  pub counts : ird.rows_processed_ptr ≡ counter

length-map {ℓ κ} :
    {A : Type ℓ} {B : Type κ} (f : A → B) (xs : List A) → length (map f xs) ≡ length xs
length-map f [] = refl
length-map f (x ∷ xs) = ap suc (length-map f xs)

module _ {S R : Type 0} (set : ResultSets R) (law : ReadsForward set) (spi : Spi S R) where
  -- `SQLFreeStmt(SQL_CLOSE)` and then `SQLExecDirect`.
  abbrev pub run_query : Handle S R → Bytes → Outcome (Handle S R)
  run_query h query = close_cursor set spi h true >>= λ g. execute_direct set spi g query

  -- Closing the cursor and executing a query that has a result opens the result at its beginning,
  -- with every column to be bound anew, and the IRD describes its columns.
  pub run_query-IsReading :
      (h : Handle S R) (query : Bytes) (s' : S) (size counter : ℕ)
      → (p : IsSetUp h.statement h.memory size counter)
      → spi.execute h.spi query ≡ returns (s', true)
      → law.sound (spi.get_result_set s')
      → length (set.get_metadata (spi.get_result_set s')) ≡ law.columns
      → AreAccepted law p.ard.records law.columns
      → (h' : Handle S R) × (run_query h query ≡ returns h')
        × IsReading set law h'.statement h'.memory size
            (law.remaining (spi.get_result_set s'))
            counter
        × (h'.statement.row_number ≡ 0)
        × (h'.statement.is_prepared ≡ false)
  unfolding close_cursor execute_direct notify_bindings_have_changed
      populate_from_result_set_metadata
  run_query-IsReading h query s' size counter p e sound width accepted =
      let m = put h.statement.current_ard (notify_bindings_have_changed p.ard) h.memory in
      let g : Handle S R = record {
        spi = h.spi;
        memory = m;
        statement = record h.statement {
          curren_result = none;
          row_number = 0;
          has_reached_end_of_result = false;
        };
      } in
      let opened : Handle S R = record {
        spi = s';
        memory = m;
        statement = record h.statement {
          curren_result = some (spi.get_result_set s');
          row_number = 0;
          has_reached_end_of_result = false;
        };
      } in
      let columns = set.get_metadata (spi.get_result_set s') in
      let described : length (populate_from_result_set_metadata p.ird columns).records
          ≡ length columns =
        length-map (record_of p.ird.is2x_connection) columns in
      let found : m.descriptor h.statement.ird ≡ some p.ird =
        store-other h.statement.current_ard h.statement.ird _ h.memory.descriptor p.apart
        ∙ p.ird_at in
      (
        _,
        ap (λ o. deref o >>= closed_with set spi h >>= λ g. execute_direct set spi g query) p.ard_at
            ∙ ap (λ o. o >>= executed set spi g >>= λ h'. returns (set_prepared set spi false h')) e
            ∙ ap
                (λ o. deref o >>= populate_with set spi opened columns >>= λ h'.
                  returns (set_prepared set spi false h'))
                found,
        record {
          r = spi.get_result_set s';
          ard = notify_bindings_have_changed p.ard;
          ird = populate_from_result_set_metadata p.ird columns;
          is_open = refl;
          sound = sound;
          accepted = λ j lt. accepted j (omega (arith, lt, width, described));
          width = described ∙ width;
          rows = refl;
          going = refl;
          unlimited = p.unlimited;
          ard_at =
              store-other h.statement.ird h.statement.current_ard
                (some (populate_from_result_set_metadata p.ird columns)) m.descriptor
                (λ q. p.apart (sym q))
              ∙ store-same h.statement.current_ard _ h.memory.descriptor;
          ird_at =
              store-same h.statement.ird (some (populate_from_result_set_metadata p.ird columns))
                m.descriptor;
          apart = p.apart;
          array = p.array;
          counts = p.counts;
          in_step = λ q. absurd (false≢true (sym q));
        },
        refl,
        refl,
      )

  -- A query with a result of `whole` batches of `size` rows and `rest` more, whose columns accept the
  -- row descriptor's bindings, on a statement whose cursor is closed first: the loop over SQLFetch counts `whole` full batches and then `rest`, and
  -- SQL_NO_DATA comes within two further calls.
  pub run_query-fetch_all :
      (h : Handle S R) (query : Bytes) (s' : S) (whole rest size counter : ℕ)
      → rest < size
      → counter ≢ 0
      → (p : IsSetUp h.statement h.memory size counter)
      → spi.execute h.spi query ≡ returns (s', true)
      → law.sound (spi.get_result_set s')
      → length (set.get_metadata (spi.get_result_set s')) ≡ law.columns
      → AreAccepted law p.ard.records law.columns
      → law.remaining (spi.get_result_set s') ≡ whole * size + rest
      → (run_query h query >>= λ h'. fetch_all set (suc (suc whole)) counter h'.statement h'.memory)
        ≡ returns (batches size whole rest, true)
  run_query-fetch_all h query s' whole rest size counter lt nonzero p e sound width accepted rows =
      let (h', runs, reading, zero_row, unprepared) =
        run_query-IsReading h query s' size counter p e sound width accepted in
      ap (λ o. o >>= λ h'. fetch_all set (suc (suc whole)) counter h'.statement h'.memory) runs
      ∙ fetch_all-batches set law whole rest size counter h'.statement h'.memory lt nonzero
          (subst (λ n. IsReading set law h'.statement h'.memory size n counter) rows reading)
