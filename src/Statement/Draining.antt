-- ===== src/Statement/Draining.antt =====
-- An application's loop over SQLFetch of odbc_entry.cc and `Fetch` of odbc_impl/ODBCStatement.cc: it
-- fetches until SQL_NO_DATA and reads the row count after each call.
use gizmosql_odbc_driver.Prelude.{
  ℕ, zero, suc, ◌+◌, ◌-◌, ◌*◌, ◌≤◌, ◌<◌, min, ◌≡◌, ◌≢◌, refl, ap, ◌∙◌, subst, Bool, true, false,
  not, List, [], ◌∷◌, ◌++◌, replicate, ◌==◌, if◌then◌else◌, arith,
}
use gizmosql_odbc_driver.Exceptions.{Outcome, returns, ◌>>=◌}
use gizmosql_odbc_driver.Statement.{Statement, Memory, ResultSets, deref}
use gizmosql_odbc_driver.Statement.Fetch.{Fetched, fetch, sql_fetch}
use gizmosql_odbc_driver.Statement.Forward.{ReadsForward}
use gizmosql_odbc_driver.Statement.Step.{
  IsReading, IsEnded, IsStepped, fetch-IsStepped, fetch_ended,
}

-- The row counts of the calls that gave data, and whether SQL_NO_DATA came within `fuel` calls.
abbrev pub Counts : Type 0
Counts = List ℕ × Bool

abbrev pub counted : ℕ → Counts → Outcome Counts
counted n (ns, finished) = returns (n ∷ ns, finished)

module _ {R : Type 0} (set : ResultSets R) where
  unfoldable pub fetch_all : ℕ → ℕ → Statement R → Memory → Outcome Counts
  fetch_all zero counter s m = returns ([], false)
  fetch_all (suc fuel) counter s m = sql_fetch set s m >>= λ f.
      let rest = fetch_all fuel counter f.statement f.memory in
      if f.fetched then rest >>= counted (f.memory.cell counter) else returns ([], true)

-- Whole batches, and the rest in a last one.
abbrev pub batches : ℕ → ℕ → ℕ → List ℕ
batches size whole rest = replicate whole size ++ (if rest == 0 then [] else rest ∷ [])

if-nonzero {ℓ} : {A : Type ℓ} (n : ℕ) (x y : A) → n ≢ 0 → (if not (n == 0) then x else y) ≡ x
if-nonzero n x y h = ground arith

if-counted :
    (n : ℕ) (ns : List ℕ)
    → (if not (n == 0) then counted n (ns, true) else returns ([], true))
      ≡ returns ((if n == 0 then [] else n ∷ ns), true)
if-counted zero ns = refl
if-counted (suc n) ns = ground arith

module _ {R : Type 0} (set : ResultSets R) (law : ReadsForward set) where
  sql_fetch-fetch :
      (s : Statement R) (m : Memory) (size left counter : ℕ)
      → IsReading set law s m size left counter
      → sql_fetch set s m ≡ fetch set s m size
  unfolding sql_fetch
  sql_fetch-fetch s m size left counter p =
      ap (λ o. deref o >>= λ ard. fetch set s m ard.array_size) p.ard_at
      ∙ ap (fetch set s m) p.array

  -- The call that finds nothing more ends the loop.
  after : ℕ → ℕ → Fetched R → Outcome Counts
  unfolding fetch_all
  after fuel counter f =
      let rest = fetch_all set fuel counter f.statement f.memory in
      if f.fetched then rest >>= counted (f.memory.cell counter) else returns ([], true)

  fetch_all_ended :
      (fuel : ℕ) (s : Statement R) (m : Memory) (counter : ℕ)
      → IsEnded s m counter
      → counter ≢ 0
      → fetch_all set (suc fuel) counter s m ≡ returns ([], true)
  unfolding fetch_all sql_fetch after
  fetch_all_ended fuel s m counter p nonzero =
      let (f, e, none_left, c, same) = fetch_ended set law s m p.ard.array_size counter p nonzero in
      ap (λ o. deref o >>= (λ ard. fetch set s m ard.array_size) >>= after fuel counter) p.ard_at
      ∙ ap (λ o. o >>= after fuel counter) e
      ∙ ap
          (λ b.
            if b
            then fetch_all set fuel counter f.statement f.memory >>= counted (f.memory.cell counter)
            else returns ([], true))
          none_left

  -- One call that gives data adds its count.
  fetch_all_once :
      (fuel : ℕ) (s : Statement R) (m : Memory) (size left counter : ℕ)
      (p : IsReading set law s m size left counter)
      → counter ≢ 0
      → (f : Fetched R) × IsStepped set law s m p.ard p.ird size left counter f
        × (fetch_all set (suc fuel) counter s m ≡ (
            if not (min size left == 0)
            then fetch_all set fuel counter f.statement f.memory >>= counted (min size left)
            else returns ([], true)))
  unfolding fetch_all after
  fetch_all_once fuel s m size left counter p nonzero =
      let (f, e, k) = fetch-IsStepped set law s m size left counter p nonzero in
      (
        f,
        k,
        ap (λ o. o >>= after fuel counter) (sql_fetch-fetch s m size left counter p ∙ e)
            ∙ ap
                (λ b.
                  if b
                  then fetch_all set fuel counter f.statement f.memory
                    >>= counted (f.memory.cell counter)
                  else returns ([], true))
                k.answer
            ∙ ap
                (λ n.
                  if not (min size left == 0)
                  then fetch_all set fuel counter f.statement f.memory >>= counted n
                  else returns ([], true))
                k.counted,
      )

  -- Reading a result of `whole` batches of `size` rows and `rest` more: each row is fetched once, in
  -- full batches and a last one of `rest` rows, and the loop ends within `suc (suc whole)` calls.
  pub fetch_all-batches :
      (whole rest size counter : ℕ) (s : Statement R) (m : Memory)
      → rest < size
      → counter ≢ 0
      → IsReading set law s m size (whole * size + rest) counter
      → fetch_all set (suc (suc whole)) counter s m ≡ returns (batches size whole rest, true)
  fetch_all-batches zero rest size counter s m lt nonzero p =
      let (f, k, e) = fetch_all_once (suc zero) s m size (zero * size + rest) counter p nonzero in
      let count : min size (zero * size + rest) ≡ rest = omega arith in
      e
      ∙ ap
          (λ n.
            if not (n == 0)
            then fetch_all set 1 counter f.statement f.memory >>= counted n
            else returns ([], true))
          count
      ∙ ap
          (λ (o : Outcome Counts).
            if not (rest == 0) then o >>= counted rest else returns ([], true))
          (fetch_all_ended zero f.statement f.memory counter (k.last (omega arith)) nonzero)
      ∙ if-counted rest []
  fetch_all-batches (suc whole) rest size counter s m lt nonzero p =
      let (f, k, e) =
        fetch_all_once (suc (suc whole)) s m size (suc whole * size + rest) counter p nonzero in
      let enough : size ≤ suc whole * size + rest = omega arith in
      let count : min size (suc whole * size + rest) ≡ size = omega arith in
      let left : suc whole * size + rest - size ≡ whole * size + rest = omega arith in
      let again =
        fetch_all-batches whole rest size counter f.statement f.memory lt nonzero (
          subst (λ n. IsReading set law f.statement f.memory size n counter) left
            (k.more enough)) in
      e
      ∙ ap
          (λ n.
            if not (n == 0)
            then fetch_all set (suc (suc whole)) counter f.statement f.memory >>= counted n
            else returns ([], true))
          count
      ∙ ap
          (λ (o : Outcome Counts).
            if not (size == 0) then o >>= counted size else returns ([], true))
          again
      ∙ if-nonzero size _ _ (omega arith)
