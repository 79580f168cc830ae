-- ===== src/Examples/DecimalText.antt =====
-- Runs of the decimal formatting of flight_sql/utils.cc.
use gizmosql_odbc_driver.Prelude.{ℕ, List, [], ◌∷◌, ◌≡◌, refl, true, arith}
use gizmosql_odbc_driver.Prelude.Int.{pos, negsuc}
use gizmosql_odbc_driver.Exceptions.{returns, faults}
use gizmosql_odbc_driver.DecimalText.{format_decimal_without_scientific_notation}
use gizmosql_odbc_driver.DecimalText.Value.{Denotes, value_from, format_decimal-Denotes}

-- Decimals that are already their digits.
abbrev spelled : List ℕ → List ℕ
spelled s = s

abbrev forty_two : List ℕ
forty_two = b'4' ∷ b'2' ∷ []

-- -42 at scale 3 is "-0.042".
small :
    format_decimal_without_scientific_notation spelled (b'-' ∷ forty_two) (pos 3)
    ≡ returns (b'-' ∷ b'0' ∷ b'.' ∷ b'0' ∷ forty_two)
unfolding format_decimal_without_scientific_notation
small = refl

-- 42 at scale -1 is "420".
large :
    format_decimal_without_scientific_notation spelled forty_two (negsuc 0)
    ≡ returns (b'4' ∷ b'2' ∷ b'0' ∷ [])
unfolding format_decimal_without_scientific_notation
large = refl

-- The least scale has no negation.
least_scale :
    format_decimal_without_scientific_notation spelled forty_two (negsuc 2147483647) ≡ faults
unfolding format_decimal_without_scientific_notation
least_scale = refl

format_decimal-Denotes_example :
    (text : List ℕ) × (format_decimal_without_scientific_notation spelled (b'-' ∷ forty_two) (pos 3)
      ≡ returns text)
    × Denotes (value_from 0 forty_two) true (pos 3) text
format_decimal-Denotes_example =
    format_decimal-Denotes spelled (b'-' ∷ forty_two) (pos 3) true forty_two refl
      (omega arith, omega arith, (omega arith, omega arith, tt)) (omega arith) (omega arith)
