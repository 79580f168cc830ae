-- ===== src/Examples/Timestamp.antt =====
-- Runs of the timestamp accessor.
use gizmosql_odbc_driver.Prelude.{ℕ, ◌*◌, ◌/◌, ◌≡◌, refl, arith}
use gizmosql_odbc_driver.Prelude.Int.{pos, negsuc}
use gizmosql_odbc_driver.Exceptions.{returns, faults}
use gizmosql_odbc_driver.Timestamp.{
  milli, nano, get_conversion_to_seconds_divisor, calculate_fraction, converted_result_seconds,
}
use gizmosql_odbc_driver.Timestamp.Split.{IsSplit, seconds_and_fraction, fraction_overflows}

-- One millisecond before the epoch is second -1 and 999 milliseconds.
before_epoch : calculate_fraction milli (negsuc 0) ≡ returns 999000000
unfolding calculate_fraction
before_epoch = refl

seconds_and_fraction_example :
    let d = get_conversion_to_seconds_divisor milli in
    (f : ℕ) × (calculate_fraction milli (negsuc 1500) ≡ returns (f * (1000000000 / d)))
    × IsSplit (negsuc 1500) (converted_result_seconds milli (negsuc 1500)) d f
seconds_and_fraction_example = seconds_and_fraction milli (negsuc 1500) (omega arith)

-- The first of January 2117.
fraction_overflows_example : calculate_fraction nano (pos 4638902400000000000) ≡ faults
fraction_overflows_example =
    fraction_overflows nano 4638902400000000000 (ground arith) (omega arith) (omega arith)
