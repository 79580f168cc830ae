-- ===== src/Examples/Diagnostics.antt =====
-- Runs of diagnostics.cc.
use gizmosql_odbc_driver.Prelude.{
  ◌≡◌, refl, true, false, not, some, none, List, [], ◌∷◌, length, ltb,
}
use gizmosql_odbc_driver.Diagnostics.{
  Diagnostics, v_2, init, rewrite_sql_state_for_odbc2, starts_with, get_record_at_index, has_record,
  add_error, add_warning, add_truncation_warning, truncation_record,
}
use gizmosql_odbc_driver.Diagnostics.Records.{
  Call, adds_error, adds_warning, adds_truncation, run, step, HasClass, records_after_run,
}

-- A warning before an error: the error is served first.
abbrev mixed : List Call
mixed =
    adds_truncation
    ∷ adds_error (record { msg_text = "no"; sql_state = "HY010"; native_error = 100 })
    ∷ adds_warning "changed" "01S02" 1000000
    ∷ []

abbrev after_mixed : Diagnostics
after_mixed = run (init "v" "c" v_2) mixed

-- In ODBC 2 the state HY010 is reported as S1010.
first_is_error :
    get_record_at_index after_mixed 0
    ≡ some (record { msg_text = "no"; sql_state = "S1010"; native_error = 100 })
unfolding run step add_error add_warning add_truncation_warning get_record_at_index starts_with
    rewrite_sql_state_for_odbc2
first_is_error = refl

second_is_truncation : get_record_at_index after_mixed 1 ≡ some truncation_record
unfolding run step add_error add_warning add_truncation_warning get_record_at_index starts_with
    rewrite_sql_state_for_odbc2
second_is_truncation = refl

records_after_run_example :
    (has_record after_mixed 2 ≡ true
      → HasClass
          (not (ltb 2 (length after_mixed.error_records)))
          (get_record_at_index after_mixed 2))
    × (has_record after_mixed 2 ≡ false → get_record_at_index after_mixed 2 ≡ none)
records_after_run_example = records_after_run "v" "c" v_2 mixed 2
