-- ===== src/Statement/Release.antt =====
-- `ReleaseDescriptor` of odbc_impl/ODBCDescriptor.cc, over the statements by number.
use gizmosql_odbc_driver.Prelude.{ℕ, Bool, true, false, Option, some, List, [], ◌∷◌}
use gizmosql_odbc_driver.Exceptions.{Outcome, returns, ◌>>=◌}
use gizmosql_odbc_driver.Descriptor.{Descriptor}
use gizmosql_odbc_driver.Statement.{Statement, deref, store}
use gizmosql_odbc_driver.Statement.SetAttributes.{revert_app_descriptor}

abbrev pub Statements : Type 0 → Type 0
Statements R = ℕ → Option (Statement R)

-- One of the two loops. A number without a statement is a dangling pointer.
unfoldable pub revert_all : {R : Type 0} → Bool → List ℕ → Statements R → Outcome (Statements R)
unfolding revert_app_descriptor
revert_all is_apd [] ss = returns ss
revert_all is_apd (i ∷ is) ss =
    deref (ss i) >>= λ s. revert_all is_apd is (store i (some (revert_app_descriptor s is_apd)) ss)

unfoldable pub release_descriptor :
    {R : Type 0} → Descriptor → Statements R → Outcome (Statements R)
unfolding revert_all
release_descriptor d ss =
    revert_all true d.registered_on_statements_as_apd ss
    >>= revert_all false d.registered_on_statements_as_ard
