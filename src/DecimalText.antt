-- ===== src/DecimalText.antt =====
-- `FormatDecimalWithoutScientificNotation` of flight_sql/utils.cc. The digits come from Arrow's
-- `Decimal128::ToIntegerString`, a parameter.
pub mod Value
use gizmosql_odbc_driver.Prelude.{
  ℕ, zero, suc, ◌+◌, ◌-◌, ◌^◌, Bool, true, false, List, [], ◌∷◌, ◌++◌, length, take, drop,
  replicate, set, ltb, ◌==◌, if◌then◌else◌,
}
use gizmosql_odbc_driver.Prelude.Int.{ℤ, pos, negsuc}
use gizmosql_odbc_driver.Exceptions.{Outcome, returns, faults}

-- std::string::insert at a position that is not past the end
unfoldable pub insert_at : ℕ → List ℕ → List ℕ → List ℕ
insert_at k new text = take k text ++ (new ++ drop k text)

abbrev pub starts_with_minus : List ℕ → Bool
starts_with_minus [] = false
starts_with_minus (c ∷ s) = c == b'-'

abbrev pub start_position : List ℕ → ℕ
start_position text = if starts_with_minus text then 1 else 0

-- The part for a positive scale, for digits that begin at `start`.
unfoldable pub place_point_from : ℕ → List ℕ → ℕ → List ℕ
unfolding insert_at
place_point_from start text scale =
    let digits_num = length text - start in
    if ltb scale digits_num
    then insert_at (length text - scale) (b'.' ∷ []) text
    else set (insert_at start (replicate (scale - digits_num + 2) b'0') text) (start + 1) b'.'

unfoldable pub place_point : List ℕ → ℕ → List ℕ
unfolding place_point_from
place_point text scale = place_point_from (start_position text) text scale

-- `front()` of an empty text is undefined.
abbrev pub if_front : List ℕ → List ℕ → Outcome (List ℕ)
if_front [] text = faults
if_front (c ∷ s) text = returns text

module _ {Decimal : Type 0} (to_integer_string : Decimal → List ℕ) where
  -- The scale is an int32_t, of which the least has no negation.
  unfoldable pub format_decimal_without_scientific_notation : Decimal → ℤ → Outcome (List ℕ)
  unfolding place_point
  format_decimal_without_scientific_notation value (pos zero) = returns (to_integer_string value)
  format_decimal_without_scientific_notation value (pos (suc scale)) =
      if_front (to_integer_string value) (place_point (to_integer_string value) (suc scale))
  format_decimal_without_scientific_notation value (negsuc k) =
      if suc k == 2 ^ 31
      then faults
      else if_front (to_integer_string value) (to_integer_string value ++ replicate (suc k) b'0')
