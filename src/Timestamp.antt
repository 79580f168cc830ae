-- ===== src/Timestamp.antt =====
-- flight_sql/accessors/timestamp_array_accessor.cc: a count of time units since the epoch as whole
-- seconds and a fraction in nanoseconds. Intermediate results are int64_t, and one that does not
-- fit is undefined behaviour. Calendar fields come from the seconds by boost, outside the model.
pub mod Split
use gizmosql_odbc_driver.Prelude.{
  ℕ, ◌+◌, ◌-◌, ◌*◌, ◌/◌, ◌%◌, ◌^◌, Bool, true, false, ◌&&◌, if◌then◌else◌,
}
use gizmosql_odbc_driver.Prelude.Int.{
  ℤ, pos, negsuc, ltb_ℤ, leb_ℤ, ◌+ℤ◌, ◌-ℤ◌, ◌/ℤ◌, ◌%ℤ◌, abs_ℕ, is_int64, to_size,
}
use gizmosql_odbc_driver.Exceptions.{Outcome, returns, throws, faults}

-- arrow::TimeUnit::type
pub data TimeUnit : Type 0 where
  second milli micro nano : TimeUnit

abbrev pub get_conversion_to_seconds_divisor : TimeUnit → ℕ
get_conversion_to_seconds_divisor second = 1
get_conversion_to_seconds_divisor milli = 1000
get_conversion_to_seconds_divisor micro = 1000000
get_conversion_to_seconds_divisor nano = 1000000000

-- An int64_t, or undefined behaviour.
unfoldable pub int64 : ℤ → Outcome ℤ
int64 z = if is_int64 z then returns z else faults

abbrev int64_min : ℤ
int64_min = negsuc (2 ^ 63 - 1)

-- The inner `if`: a value close to the least int64_t moves up by one second. These sums of a
-- negative and a positive number do not overflow.
unfoldable pub shift_from_min : ℕ → ℤ → ℤ
unfolding ◌+ℤ◌
shift_from_min divisor units =
    if ltb_ℤ units (pos 0) && leb_ℤ units (int64_min +ℤ pos divisor)
    then units +ℤ pos divisor
    else units

-- The statement after it, which the layout of the source puts under `if (units_since_epoch < 0)`
-- and which runs whatever the sign is.
unfoldable pub shift_up : ℕ → ℤ → Outcome ℤ
unfolding int64 ◌+ℤ◌ ◌-ℤ◌ ◌/ℤ◌
shift_up divisor units =
    let down = units -ℤ pos (divisor - 1) in
    let up = pos (divisor * abs_ℕ (down /ℤ divisor)) in
    if is_int64 down && is_int64 up then int64 (units +ℤ up) else faults

-- The value returned: the remainder in nanoseconds, as a uint32_t.
unfoldable pub to_nanoseconds : ℕ → ℤ → ℕ
unfolding ◌%ℤ◌
to_nanoseconds divisor units = to_size (units %ℤ divisor) * (1000000000 / divisor) % 2 ^ 32

abbrev with_fraction : ℕ → Outcome ℤ → Outcome ℕ
with_fraction divisor (returns u) = returns (to_nanoseconds divisor u)
with_fraction divisor (throws e) = throws e
with_fraction divisor faults = faults

abbrev is_second : TimeUnit → Bool
is_second second = true
is_second _ = false

unfoldable pub calculate_fraction : TimeUnit → ℤ → Outcome ℕ
unfolding int64 shift_from_min shift_up to_nanoseconds
calculate_fraction unit units =
    if is_second unit
    then returns 0
    else let divisor = get_conversion_to_seconds_divisor unit in
      with_fraction divisor (shift_up divisor (shift_from_min divisor units))

-- The whole seconds: floor division, without an overflow near the least int64_t.
unfoldable pub converted_result_seconds : TimeUnit → ℤ → ℤ
unfolding ◌+ℤ◌ ◌-ℤ◌ ◌/ℤ◌
converted_result_seconds unit value =
    let divisor = get_conversion_to_seconds_divisor unit in
    if ltb_ℤ value (pos 0) then (value +ℤ pos 1) /ℤ divisor -ℤ pos 1 else value /ℤ divisor
