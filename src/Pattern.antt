-- ===== src/Pattern.antt =====
-- `ConvertSqlPatternToRegexString` of flight_sql/utils.cc: the search patterns of catalog functions as
-- regular expressions.
pub mod Tokens
use gizmosql_odbc_driver.Prelude.{ℕ, Bool, true, false, ◌||◌, List, [], ◌∷◌, ◌==◌, if◌then◌else◌}

-- []()|^-+*?{}$\.
abbrev pub specials : List ℕ
specials = 91 ∷ 93 ∷ 40 ∷ 41 ∷ 124 ∷ 94 ∷ 45 ∷ 43 ∷ 42 ∷ 63 ∷ 123 ∷ 125 ∷ 36 ∷ 92 ∷ 46 ∷ []

abbrev pub contains : List ℕ → ℕ → Bool
contains [] c = false
contains (x ∷ xs) c = (c == x) || contains xs c

unfoldable pub is_special : ℕ → Bool
is_special c = contains specials c

abbrev pub backslash : ℕ
backslash = 92

abbrev pub underscore : ℕ
underscore = 95

abbrev pub percent : ℕ
percent = 37

abbrev pub dot : ℕ
dot = 46

abbrev pub star : ℕ
star = 42

-- The loop, from a state of `escape` on.
unfoldable pub regex_from : Bool → List ℕ → List ℕ
regex_from escape [] = []
regex_from true (c ∷ pattern) = c ∷ regex_from false pattern
regex_from false (c ∷ pattern) =
    let rest = regex_from false pattern in
    let escaped = regex_from true pattern in
    if c == backslash
    then escaped
    else if c == underscore
    then dot ∷ rest
    else if c == percent
    then dot ∷ star ∷ rest
    else if is_special c
    then backslash ∷ c ∷ rest
    else c ∷ rest

unfoldable pub convert_sql_pattern_to_regex_string : List ℕ → List ℕ
unfolding regex_from
convert_sql_pattern_to_regex_string pattern = regex_from false pattern
