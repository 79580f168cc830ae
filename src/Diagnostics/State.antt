-- ===== src/Diagnostics/State.antt =====
-- The SQLSTATE of a record: what `RewriteSQLStateForODBC2` changes and what it keeps.
use gizmosql_odbc_driver.Prelude.{String, ◌≡◌, refl, arith}
use gizmosql_odbc_driver.Diagnostics.{is_warning, starts_with, rewrite_sql_state_for_odbc2}

-- Rewriting twice is rewriting once.
pub rewrite_idem :
    (s : String)
    → rewrite_sql_state_for_odbc2 (rewrite_sql_state_for_odbc2 s) ≡ rewrite_sql_state_for_odbc2 s
unfolding rewrite_sql_state_for_odbc2
rewrite_idem (String.◌∷◌ c (String.◌∷◌ d s)) = ground arith
rewrite_idem _ = refl

-- The class of a state, warning or error, does not depend on the version.
pub is_warning-rewrite : (s : String) → is_warning (rewrite_sql_state_for_odbc2 s) ≡ is_warning s
unfolding rewrite_sql_state_for_odbc2 starts_with
is_warning-rewrite (String.◌∷◌ c (String.◌∷◌ d s)) = ground arith
is_warning-rewrite _ = refl
