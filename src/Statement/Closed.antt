-- ===== src/Statement/Closed.antt =====
-- `Fetch` of odbc_impl/ODBCStatement.cc on a cursor that `closeCursor` has closed.
use gizmosql_odbc_driver.Prelude.{ℕ, ◌≡◌, ◌≢◌, ap, ◌∙◌, true, false, none, some}
use gizmosql_odbc_driver.Exceptions.{faults, ◌>>=◌}
use gizmosql_odbc_driver.Descriptor.{Descriptor}
use gizmosql_odbc_driver.Statement.{ResultSets, deref, put, store-same, store-other}
use gizmosql_odbc_driver.Statement.Fetch.{fetch, fetch_with}
use gizmosql_odbc_driver.Statement.Cursor.{
  Handle, Spi, close_cursor, closed_with, notify_bindings_have_changed,
}

-- A fetch on a closed cursor, which the function does not refuse, goes through the null pointer.
pub close_cursor-fetch :
    {S R : Type 0} (set : ResultSets R) (spi : Spi S R) (h : Handle S R) (rows : ℕ)
    (ard ird : Descriptor)
    → h.memory.descriptor h.statement.current_ard ≡ some ard
    → h.memory.descriptor h.statement.ird ≡ some ird
    → h.statement.ird ≢ h.statement.current_ard
    → (close_cursor set spi h true >>= λ g. fetch set g.statement g.memory rows) ≡ faults
unfolding close_cursor fetch notify_bindings_have_changed
close_cursor-fetch {R = R} set spi h rows ard ird ard_at ird_at apart =
    let a = h.statement.current_ard in
    let d = notify_bindings_have_changed ard in
    let m = put a d h.memory in
    let s = record h.statement {
      curren_result = none;
      row_number = 0;
      has_reached_end_of_result = false;
    } in
    ap (λ o. deref o >>= closed_with set spi h >>= λ g. fetch set g.statement g.memory rows) ard_at
    ∙ ap (λ o. deref o >>= fetch_with set s m rows)
        (store-other a h.statement.ird (some d) h.memory.descriptor apart ∙ ird_at)
    ∙ ap (λ o. deref o >>= λ e. faults) (store-same a (some d) h.memory.descriptor)
