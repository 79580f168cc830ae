-- ===== src/Examples/Pattern.antt =====
-- Runs of `ConvertSqlPatternToRegexString` of flight_sql/utils.cc.
use gizmosql_odbc_driver.Prelude.{ℕ, List, [], ◌∷◌, ◌≡◌, refl, false}
use gizmosql_odbc_driver.Pattern.{convert_sql_pattern_to_regex_string}
use gizmosql_odbc_driver.Pattern.Tokens.{
  literal, operator, any_char, any_text, plain, regex_tokens, pattern_from, is_operator,
  convert_sql_pattern_lem,
}

-- t_\_%.
abbrev tables : List ℕ
tables = b't' ∷ b'_' ∷ b'\\' ∷ b'_' ∷ b'%' ∷ b'.' ∷ []

tables_tokens :
    pattern_from false tables
    ≡ literal b't' ∷ any_char ∷ literal b'_' ∷ any_text ∷ literal b'.' ∷ []
unfolding pattern_from
tables_tokens = refl

-- A parenthesis after a backslash arrives in the regular expression without one.
lost_quote :
    regex_tokens plain (convert_sql_pattern_to_regex_string (b'\\' ∷ b'(' ∷ []))
    ≡ operator b'(' ∷ []
unfolding convert_sql_pattern_to_regex_string regex_tokens is_operator
lost_quote = refl

convert_sql_pattern_lem_example :
    regex_tokens plain (convert_sql_pattern_to_regex_string tables) ≡ pattern_from false tables
convert_sql_pattern_lem_example = convert_sql_pattern_lem tables (unfold is_operator in (refl, tt))
