-- ===== src/Examples/Environment.antt =====
-- Calls of an environment of odbc_impl/ODBCEnvironment.cc.
use gizmosql_odbc_driver.Prelude.{ℕ, ◌≡◌, refl, false, List, [], ◌∷◌}
use gizmosql_odbc_driver.Diagnostics.{v_3, add_truncation_warning}
use gizmosql_odbc_driver.Diagnostics.Records
use gizmosql_odbc_driver.Statement.Registration.{count, one_if}
use gizmosql_odbc_driver.Descriptor.{erase}
use gizmosql_odbc_driver.Environment.{
  Environment, diagnostics_version, new_environment, set_odbc_version, drop_connection,
}
use gizmosql_odbc_driver.Environment.History.{
  Call, apply, run_calls, is_open, AreFresh, run_calls_lem,
}

-- Two connections, of which the first is dropped and its address used again.
abbrev calls : List Call
calls =
    Call.sets_version 3
    ∷ Call.creates 16
    ∷ Call.creates 32
    ∷ Call.reports Records.adds_truncation
    ∷ Call.drops 16
    ∷ Call.drops 64
    ∷ Call.creates 16
    ∷ []

abbrev used : Environment
used = run_calls (new_environment "v" "c") calls

connections_left : used.connections ≡ 32 ∷ 16 ∷ []
unfolding run_calls apply erase drop_connection set_odbc_version
connections_left = refl

version_3 : used.diagnostics.version ≡ v_3
unfolding run_calls apply erase drop_connection set_odbc_version Records.step add_truncation_warning
version_3 = refl

fresh : AreFresh calls (λ a. false)
unfolding AreFresh
fresh = (refl, (refl, (refl, tt)))

run_calls_lem_example :
    (used.diagnostics.version ≡ diagnostics_version used.version)
    × ((a : ℕ) → count a used.connections ≡ one_if (is_open a false calls))
run_calls_lem_example = run_calls_lem "v" "c" calls fresh
