-- ===== src/Statement/Forward.antt =====
-- What a forward-only result set promises `ODBCStatement` (spi/result_set.h), and the loop of `Fetch`
-- in odbc_impl/ODBCStatement.cc that binds its columns.
use native.Mathlib.Decide.{ℕ_discrete}
use gizmosql_odbc_driver.Prelude.{
  ℕ, zero, suc, ◌+◌, ◌-◌, min, ◌≡◌, ◌≢◌, ◌≤◌, ◌<◌, refl, ap, ◌∙◌, subst, List, length, get_elem?,
  arith,
}
use gizmosql_odbc_driver.Exceptions.{returns, ◌>>=◌}
use gizmosql_odbc_driver.Descriptor.{Descriptor}
use gizmosql_odbc_driver.Descriptor.Record.{DescriptorRecord}
use gizmosql_odbc_driver.Statement.{Binding, ResultSets}
use gizmosql_odbc_driver.Statement.Fetch.{bind_columns, binding_of}

-- The documented behaviour of a forward-only result set of some columns: in a sound state in which
-- each column has a binding that it accepts, `Move` fetches the asked
-- number of rows, or those that remain if they are fewer, and keeps the bindings; binding a column
-- that the result has, as that column accepts it, replaces the column's binding by what the column
-- makes of the new one, and moves nothing. Both leave a sound state. Nothing is asked of other
-- columns and bindings, for which BindColumn or Move may fail.
pub record ReadsForward {R : Type 0} (set : ResultSets R) : Type 1 where
  pub Bound : Type 0
  pub sound : R → Type 0
  pub columns : ℕ
  pub accepts : ℕ → Binding → Type 0
  pub seen : ℕ → Binding → Bound
  pub remaining : R → ℕ
  pub bound : R → ℕ → Bound
  pub binds :
      (r : R) (n : ℕ) (b : Binding)
      → sound r
      → accepts n b
      → (r' : R) × (set.bind_column r n b ≡ returns r')
        × sound r'
        × (remaining r' ≡ remaining r)
        × (bound r' n ≡ seen n b)
        × ((k : ℕ) → k ≢ n → bound r' k ≡ bound r k)
  pub moves :
      (r : R) (rows offset type status : ℕ)
      → sound r
      → ((j : ℕ)
          → j < columns
          → (b : Binding) × accepts (suc j) b × (bound r (suc j) ≡ seen (suc j) b))
      → (r' : R) × (set.move r rows offset type status ≡ returns (r', min rows (remaining r)))
        × sound r'
        × (remaining r' ≡ remaining r - rows)
        × ((k : ℕ) → bound r' k ≡ bound r k)

-- The columns are bound as the descriptor's records say.
unfoldable pub IsInStep :
    {R : Type 0} {set : ResultSets R} → ReadsForward set → Descriptor → Descriptor → R → Type 0
IsInStep law ard ird r =
    (j : ℕ)
    → j < length ird.records
    → law.bound r (suc j) ≡ law.seen (suc j) (binding_of (get_elem? ard.records j))

-- The first `n` columns accept what the records say.
abbrev pub AreAccepted :
    {R : Type 0} {set : ResultSets R} → ReadsForward set → List DescriptorRecord → ℕ → Type 0
AreAccepted law records n = (j : ℕ) → j < n → law.accepts (suc j) (binding_of (get_elem? records j))

-- What the loop over the columns, from position `i` on, leaves.
pub record IsBoundFrom {R : Type 0} (set : ResultSets R) (law : ReadsForward set)
    (records : List DescriptorRecord) (i n : ℕ) (r r' : R) : Type 0 where
  pub sound : law.sound r'
  pub same_rows : law.remaining r' ≡ law.remaining r
  pub inside :
      (j : ℕ)
      → i ≤ j
      → j < i + n
      → law.bound r' (suc j) ≡ law.seen (suc j) (binding_of (get_elem? records j))
  pub below : (k : ℕ) → k ≤ i → law.bound r' k ≡ law.bound r k

module _ {R : Type 0} (set : ResultSets R) (law : ReadsForward set) where
  pub bind_columns-IsBoundFrom :
      (records : List DescriptorRecord) (i n m : ℕ) (r : R)
      → law.sound r
      → AreAccepted law records m
      → i + n ≤ m
      → (r' : R) × (bind_columns set records i n r ≡ returns r')
        × IsBoundFrom set law records i n r r'
  unfolding bind_columns
  bind_columns-IsBoundFrom records i zero m r sound accepted fits = (
    r,
    refl,
    record {
      sound = sound;
      same_rows = refl;
      inside = λ j le lt. absurd (omega arith);
      below = λ k le. refl;
    },
  )
  bind_columns-IsBoundFrom records i (suc n) m r sound accepted fits =
      let (r', e, sound', same, new, old) =
        law.binds r (suc i) (binding_of (get_elem? records i)) sound (accepted i (omega arith)) in
      let (r'', e', rest) =
        bind_columns-IsBoundFrom records (suc i) n m r' sound' accepted (omega arith) in
      (
        r'',
        ap (λ o. o >>= bind_columns set records (suc i) n) e ∙ e',
        record {
          sound = rest.sound;
          same_rows = rest.same_rows ∙ same;
          inside = λ j le lt. elim (ℕ_discrete i j) [
            | yes at ↦
                rest.below (suc j) (omega arith)
                ∙ subst
                    (λ (k : ℕ).
                      law.bound r' (suc k) ≡ law.seen (suc k) (binding_of (get_elem? records k)))
                    at new
            | no apart ↦ rest.inside j (omega arith) (omega arith)
          ];
          below = λ k le. rest.below k (omega arith) ∙ old k (omega arith);
        },
      )
