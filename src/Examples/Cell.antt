-- ===== src/Examples/Cell.antt =====
-- Runs of the moves of one cell.
use gizmosql_odbc_driver.Prelude.{ℕ, List, [], ◌∷◌, true, ◌≡◌, refl, some, none, arith}
use gizmosql_odbc_driver.Exceptions.{faults}
use gizmosql_odbc_driver.Cell.{move_to_binary_buffer}
use gizmosql_odbc_driver.Cell.BinaryRead.{read_binary, read_binary_lem}
use gizmosql_odbc_driver.Cell.TextRead.{read_text, read_text_lem, utf16}

abbrev three_chars : List ℕ
three_chars = 97 ∷ 0 ∷ 98 ∷ 0 ∷ 99 ∷ 0 ∷ []

-- With a slot of one byte for a character of two, no call gets anywhere.
no_progress : read_text utf16 9 three_chars 2 0 (7 ∷ 7 ∷ []) ≡ none
unfolding read_text gizmosql_odbc_driver.Cell.move_to_char_buffer
no_progress = refl

read_binary_lem_example : read_binary 7 three_chars 4 0 (7 ∷ 7 ∷ 7 ∷ 7 ∷ []) ≡ some three_chars
read_binary_lem_example =
    read_binary_lem 7 three_chars 4 0 (7 ∷ 7 ∷ 7 ∷ 7 ∷ []) (omega arith) (omega arith) (omega arith)
      refl (omega arith)

-- Slots of two characters, one of them the terminator.
read_text_lem_example : read_text utf16 7 three_chars 4 0 (7 ∷ 7 ∷ 7 ∷ 7 ∷ []) ≡ some three_chars
read_text_lem_example =
    read_text_lem utf16 7 three_chars 0 3 4 0 (7 ∷ 7 ∷ 7 ∷ 7 ∷ []) (omega arith) (omega arith) refl
      refl refl (omega arith)

-- Past the value the remaining length wraps, and the copy reads outside.
past_the_value : move_to_binary_buffer three_chars 4 7 true (7 ∷ 7 ∷ 7 ∷ 7 ∷ []) ≡ faults
unfolding move_to_binary_buffer
past_the_value = refl
