-- ===== src/Prelude/Text.antt =====
-- Decimal texts: bytes for the code that edits them, and `String` for messages.
use Prim.Native.Nat.{ℕ, suc, zero, ◌+◌, ◌/◌, ◌%◌}
use Prim.Native.String.{String, ◌++◌}
use mathlib.Core.List.{List, [], ◌∷◌}
use gizmosql_odbc_driver.Prelude.Tests.{ltb, ◌==◌, if◌then◌else◌}
use gizmosql_odbc_driver.Prelude.Int.{ℤ, pos, negsuc}

infixr 65 ◌+++◌
abbrev pub ◌+++◌ : String → String → String
s +++ t = s ++ t

-- The digits of `n` before `rest`, as ASCII codes; `suc n` rounds are enough.
unfoldable pub digits_before : ℕ → ℕ → List ℕ → List ℕ
digits_before zero n rest = rest
digits_before (suc f) n rest =
    let more = digits_before f (n / 10) ((48 + n % 10) ∷ rest) in
    if ltb n 10 then (48 + n % 10) ∷ rest else more

unfoldable pub digits : ℕ → List ℕ
unfolding digits_before
digits n = digits_before (suc n) n []

digit_text : ℕ → String
digit_text c =
    if c == 48
    then "0"
    else if c == 49
    then "1"
    else if c == 50
    then "2"
    else if c == 51
    then "3"
    else if c == 52
    then "4"
    else if c == 53
    then "5"
    else if c == 54
    then "6"
    else if c == 55
    then "7"
    else if c == 56
    then "8"
    else "9"

digits_text : List ℕ → String
digits_text [] = ""
digits_text (c ∷ s) = digit_text c ++ digits_text s

-- std::to_string
unfoldable pub int_text : ℤ → String
unfolding digits digits_text digit_text
int_text (pos n) = digits_text (digits n)
int_text (negsuc n) = "-" ++ digits_text (digits (suc n))
