-- ===== src/Examples/Converter.antt =====
-- A run of `GetConverter` of flight_sql/utils.cc over arrays that are a type and texts.
use gizmosql_odbc_driver.Prelude.{ℕ, List, [], ◌∷◌, ◌≡◌, refl, sym, ap, Option, some, none}
use gizmosql_odbc_driver.Prelude.Int.{ℤ, pos}
use gizmosql_odbc_driver.Exceptions.{Result, ok, err, returns}
use gizmosql_odbc_driver.DecimalText.{format_decimal_without_scientific_notation}
use gizmosql_odbc_driver.Types.{ArrowType, CDataType}
use gizmosql_odbc_driver.Types.Arrow.{convert_c_to_arrow_type}
use gizmosql_odbc_driver.Types.Converter.{Compute, HasTypes, get_converter}
use gizmosql_odbc_driver.Types.Read.{get_converter_lem}

abbrev Array : Type 0
Array = ArrowType × List (Option (List ℕ))

abbrev type_number : ArrowType → ℤ
type_number t = pos 7

-- Casts keep the texts, and a decimal is its digits.
abbrev texts : Compute Array (List ℕ)
texts = record {
  type_of = λ a. a.0;
  strptime = λ format unit a. ok (ArrowType.timestamp, a.1);
  cast = λ t a. ok (t.id, a.1);
  add = λ n a. ok a;
  decimals = λ a. a.1;
  scale = λ a. pos 2;
  build_strings = λ strings. ok (ArrowType.string, strings);
  to_integer_string = λ digits. digits;
  convert_to_json = λ a. ok (ArrowType.string, a.1);
  get_today_time_from_epoch = 1764201600;
}

abbrev type_or : ArrowType → Result Array → ArrowType
type_or t (ok a) = a.0
type_or t (err e) = t

texts-HasTypes : HasTypes texts
texts-HasTypes = record {
  cast_type = λ t a b done. sym (ap (type_or t.id) done);
  strings_type = λ strings b done. sym (ap (type_or ArrowType.string) done);
  json_type = λ a b done. sym (ap (type_or ArrowType.string) done);
}

-- 1234 at scale 2 is "12.34".
abbrev price : Array
price = (ArrowType.decimal128, some (b'1' ∷ b'2' ∷ b'3' ∷ b'4' ∷ []) ∷ none ∷ [])

abbrev price_text : Array
price_text = (ArrowType.string, some (b'1' ∷ b'2' ∷ b'.' ∷ b'3' ∷ b'4' ∷ []) ∷ none ∷ [])

priced :
    get_converter type_number texts ArrowType.decimal128 CDataType.char price ≡ returns price_text
unfolding get_converter format_decimal_without_scientific_notation
priced = refl

get_converter_lem_example : convert_c_to_arrow_type CDataType.char ≡ ok ArrowType.string
get_converter_lem_example =
    get_converter_lem type_number texts texts-HasTypes ArrowType.decimal128 CDataType.char price
      price_text priced
