-- ===== src/Examples/Handle.antt =====
-- Runs of ODBCHandle.h.
use gizmosql_odbc_driver.Prelude.{◌≡◌, refl, false}
use gizmosql_odbc_driver.Exceptions.{driver_exception, ok, err}
use gizmosql_odbc_driver.Diagnostics.{
  Diagnostics, v_3, init, clear, has_error, has_warning, starts_with,
}
use gizmosql_odbc_driver.Handle.{Body, success, success_with_info, error, execute}
use gizmosql_odbc_driver.Handle.Outcome.{execute_success}

abbrev fresh : Diagnostics
fresh = init "GizmoData" "" v_3

abbrev quiet : Body
quiet d = (d, ok success)

-- An exception of class 01 is reported as a warning, under a caller's code that is success.
abbrev changes_value : Body
changes_value d = (d, err (driver_exception "Option value changed." "01S02"))

warned : (execute success changes_value fresh).1 ≡ success_with_info
unfolding execute starts_with
warned = refl

-- Under SQL_ERROR as the caller's code it stays an error.
refused : (execute error changes_value fresh).1 ≡ error
unfolding execute starts_with
refused = refl

execute_success_example :
    let d' = (execute error quiet fresh).0 in
    (quiet (clear fresh) ≡ (d', ok success)) × (has_error d' ≡ false) × (has_warning d' ≡ false)
execute_success_example = execute_success error quiet fresh (unfold execute in refl)
