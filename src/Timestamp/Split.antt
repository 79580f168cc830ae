-- ===== src/Timestamp/Split.antt =====
-- Seconds and fraction together are the value, except where the fraction overflows.
-- Comments in timestamp_array_accessor.cc expect wrong results for values close to the least int64_t;
-- the code has none there.
use gizmosql_odbc_driver.Prelude.{ℕ, ◌+◌, ◌-◌, ◌*◌, ◌/◌, ◌%◌, ◌^◌, ◌≤◌, ◌<◌, ◌≡◌, ◌≢◌, refl, arith}
use gizmosql_odbc_driver.Prelude.Int.{ℤ, pos, negsuc, pos_part, neg_part}
use gizmosql_odbc_driver.Exceptions.{returns, faults}
use gizmosql_odbc_driver.Timestamp.{
  TimeUnit, second, milli, micro, nano, get_conversion_to_seconds_divisor, calculate_fraction,
  converted_result_seconds,
}

seconds_pos :
    (unit : TimeUnit) (n : ℕ)
    → converted_result_seconds unit (pos n) ≡ pos (n / get_conversion_to_seconds_divisor unit)
unfolding converted_result_seconds
seconds_pos second n = ground arith
seconds_pos milli n = ground arith
seconds_pos micro n = ground arith
seconds_pos nano n = ground arith

seconds_neg :
    (unit : TimeUnit) (n : ℕ)
    → converted_result_seconds unit (negsuc n) ≡ negsuc (n / get_conversion_to_seconds_divisor unit)
unfolding converted_result_seconds
seconds_neg second n = ground arith
seconds_neg milli n = ground arith
seconds_neg micro n = ground arith
seconds_neg nano n = ground arith

-- The fraction of a value from the epoch on, in the lower half of the int64_t range.
fraction_pos :
    (unit : TimeUnit) (n : ℕ)
    → n < 2 ^ 62
    → let d = get_conversion_to_seconds_divisor unit in
      calculate_fraction unit (pos n) ≡ returns (n % d * (1000000000 / d))
unfolding calculate_fraction
fraction_pos second n h = ground arith
fraction_pos milli n h = ground arith
fraction_pos micro n h = ground arith
fraction_pos nano n h = ground arith

-- The fraction of a value before the epoch, -(n + 1).
fraction_neg :
    (unit : TimeUnit) (n : ℕ)
    → n < 2 ^ 63
    → let d = get_conversion_to_seconds_divisor unit in
      calculate_fraction unit (negsuc n) ≡ returns ((d - 1 - n % d) * (1000000000 / d))
unfolding calculate_fraction
fraction_neg second n h = ground arith
fraction_neg milli n h = ground arith
fraction_neg micro n h = ground arith
fraction_neg nano n h = ground arith

-- The fraction of a value in the upper half overflows an int64_t, in every unit but seconds. In
-- nanoseconds that is each timestamp from early 2116 on.
pub fraction_overflows :
    (unit : TimeUnit) (n : ℕ)
    → unit ≢ second
    → 2 ^ 62 + get_conversion_to_seconds_divisor unit ≤ n
    → n < 2 ^ 63
    → calculate_fraction unit (pos n) ≡ faults
unfolding calculate_fraction
fraction_overflows second n ne lo hi = absurd (ne refl)
fraction_overflows milli n ne lo hi = ground arith
fraction_overflows micro n ne lo hi = ground arith
fraction_overflows nano n ne lo hi = ground arith

-- The int64_t values for which no intermediate result of the fraction overflows: all before the
-- epoch, and the lower half from it on.
abbrev pub IsLower : ℤ → Type 0
IsLower (pos n) = n < 2 ^ 62
IsLower (negsuc n) = n < 2 ^ 63

-- `v` is `s` seconds and `f` units of which a second has `d`.
abbrev pub IsSplit : ℤ → ℤ → ℕ → ℕ → Type 0
IsSplit v s d f = (f < d) × (pos_part v + neg_part s * d ≡ neg_part v + pos_part s * d + f)

-- In every time unit, the seconds are the floor of the value, before the epoch too, and the
-- fraction is defined and is the rest of the value, from 0 up to a second, in nanoseconds.
pub seconds_and_fraction :
    (unit : TimeUnit) (v : ℤ)
    → IsLower v
    → let d = get_conversion_to_seconds_divisor unit in
      (f : ℕ) × (calculate_fraction unit v ≡ returns (f * (1000000000 / d)))
      × IsSplit v (converted_result_seconds unit v) d f
seconds_and_fraction unit (pos n) h =
    let d = get_conversion_to_seconds_divisor unit in
    (n % d, fraction_pos unit n h, rw seconds_pos (split_pos unit n))
  where
    split_pos :
        (unit : TimeUnit) (n : ℕ)
        → let d = get_conversion_to_seconds_divisor unit in IsSplit (pos n) (pos (n / d)) d (n % d)
    split_pos second n = omega arith
    split_pos milli n = omega arith
    split_pos micro n = omega arith
    split_pos nano n = omega arith
seconds_and_fraction unit (negsuc n) h =
    let d = get_conversion_to_seconds_divisor unit in
    (d - 1 - n % d, fraction_neg unit n h, rw seconds_neg (split_neg unit n))
  where
    split_neg :
        (unit : TimeUnit) (n : ℕ)
        → let d = get_conversion_to_seconds_divisor unit in
          IsSplit (negsuc n) (negsuc (n / d)) d (d - 1 - n % d)
    split_neg second n = omega arith
    split_neg milli n = omega arith
    split_neg micro n = omega arith
    split_neg nano n = omega arith
