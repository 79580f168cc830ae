-- ===== src/Types/Converter.antt =====
-- `GetConverter` of flight_sql/utils.cc: the conversion of an array to the type that the accessor
-- of a C type reads. Arrow's compute functions are an interface, as are the conversion to JSON and
-- the time of the day's start, which are modelled apart from it.
use gizmosql_odbc_driver.Prelude.{
  ℕ, ◌*◌, String, ◌≡◌, Bool, true, false, ◌&&◌, Option, none, some, List, [], ◌∷◌, if◌then◌else◌,
}
use gizmosql_odbc_driver.Prelude.Int.{ℤ, pos}
use gizmosql_odbc_driver.Exceptions.{Result, ok, err, and_then, Outcome, returns, throws, ◌>>=◌}
use gizmosql_odbc_driver.DecimalText.{format_decimal_without_scientific_notation}
use gizmosql_odbc_driver.Types.{ArrowType, CDataType}
use gizmosql_odbc_driver.Types.Arrow.{
  is_time, is_date, is_timestamp, is_character, is_complex_type, convert_c_to_arrow_type,
  get_default_data_type_for_type_id,
}
use gizmosql_odbc_driver.Timestamp.{TimeUnit, second, milli, micro, nano}

-- A type instance: its id, and its time unit if the code names one.
pub record DataType : Type 0 where
  pub id : ArrowType
  pub unit : Option TimeUnit

abbrev pub plain : ArrowType → DataType
plain t = record { id = t; unit = none }

abbrev pub timed : ArrowType → TimeUnit → DataType
timed t u = record { id = t; unit = some u }

-- What the converters use of Arrow: `Strptime`, `Cast` (and "cast"), `Add` with an Int64Scalar, the
-- values of a decimal array and their scale, the StringBuilder, and each decimal's digits.
pub record Compute (Array Decimal : Type 0) : Type 0 where
  pub type_of : Array → ArrowType
  pub strptime : String → TimeUnit → Array → Result Array
  pub cast : DataType → Array → Result Array
  pub add : ℤ → Array → Result Array
  pub decimals : Array → List (Option Decimal)
  pub scale : Array → ℤ
  pub build_strings : List (Option (List ℕ)) → Result Array
  pub to_integer_string : Decimal → List ℕ
  pub convert_to_json : Array → Result Array
  pub get_today_time_from_epoch : ℕ

-- The documented types of their results.
pub record HasTypes {Array Decimal : Type 0} (arrow : Compute Array Decimal) : Type 0 where
  pub cast_type : (t : DataType) (a b : Array) → arrow.cast t a ≡ ok b → arrow.type_of b ≡ t.id
  pub strings_type :
      (texts : List (Option (List ℕ))) (b : Array)
      → arrow.build_strings texts ≡ ok b
      → arrow.type_of b ≡ ArrowType.string
  pub json_type :
      (a b : Array) → arrow.convert_to_json a ≡ ok b → arrow.type_of b ≡ ArrowType.string

-- The time unit in `GetDefaultDataTypeForTypeId`.
abbrev pub default_unit : ArrowType → Option TimeUnit
default_unit ArrowType.time64 = some micro
default_unit ArrowType.timestamp = some second
default_unit _ = none

abbrev pub is_string_type : ArrowType → Bool
is_string_type ArrowType.string = true
is_string_type _ = false

abbrev pub is_time32_type : ArrowType → Bool
is_time32_type ArrowType.time32 = true
is_time32_type _ = false

abbrev pub is_time64_type : ArrowType → Bool
is_time64_type ArrowType.time64 = true
is_time64_type _ = false

abbrev pub is_decimal_type : ArrowType → Bool
is_decimal_type ArrowType.decimal128 = true
is_decimal_type _ = false

abbrev pub outcome {ℓ} : {A : Type ℓ} → Result A → Outcome A
outcome (ok a) = returns a
outcome (err e) = throws e

module _ {Array Decimal : Type 0} (type_number : ArrowType → ℤ)
    (arrow : Compute Array Decimal) where
  unfoldable pub string_to_time : Array → Result Array
  string_to_time a =
      and_then (arrow.strptime "%H:%M" micro a) (arrow.cast (timed ArrowType.time64 micro))

  unfoldable pub string_to_date : Array → Result Array
  string_to_date a =
      and_then (arrow.strptime "%Y-%m-%d" second a) (arrow.cast (plain ArrowType.date64))

  -- The time of day in milliseconds, on today's date.
  unfoldable pub time32_to_timestamp : Array → Result Array
  time32_to_timestamp a = and_then (arrow.cast (plain ArrowType.int32) a) (λ b.
      and_then (arrow.cast (plain ArrowType.int64) b) (λ c.
        and_then (arrow.add (pos (arrow.get_today_time_from_epoch * 1000)) c)
          (arrow.cast (timed ArrowType.timestamp milli))))

  -- The same in nanoseconds.
  unfoldable pub time64_to_timestamp : Array → Result Array
  time64_to_timestamp a = and_then (arrow.cast (plain ArrowType.int64) a) (λ b.
      and_then (arrow.add (pos (arrow.get_today_time_from_epoch * 1000000000)) b)
        (arrow.cast (timed ArrowType.timestamp nano)))

  -- The loop over the decimals.
  unfoldable pub decimal_texts : ℤ → List (Option Decimal) → Outcome (List (Option (List ℕ)))
  unfolding format_decimal_without_scientific_notation
  decimal_texts scale [] = returns []
  decimal_texts scale (none ∷ vs) = decimal_texts scale vs >>= λ texts. returns (none ∷ texts)
  decimal_texts scale (some v ∷ vs) =
      format_decimal_without_scientific_notation arrow.to_integer_string v scale >>= λ text.
      decimal_texts scale vs >>= λ texts. returns (some text ∷ texts)

  unfoldable pub decimals_to_strings : Array → Outcome Array
  unfolding decimal_texts
  decimals_to_strings a = decimal_texts (arrow.scale a) (arrow.decimals a) >>= λ texts.
      outcome (arrow.build_strings texts)

  unfoldable pub default_conversion : CDataType → Array → Result Array
  default_conversion target a = and_then (convert_c_to_arrow_type target) (λ t.
      and_then (get_default_data_type_for_type_id type_number t)
        (λ u. arrow.cast (record { id = u; unit = default_unit u }) a))

  unfoldable pub get_converter : ArrowType → CDataType → Array → Outcome Array
  unfolding string_to_time string_to_date time32_to_timestamp time64_to_timestamp
      decimals_to_strings default_conversion
  get_converter original target a =
      if is_string_type original && is_time target
      then outcome (string_to_time a)
      else if is_time32_type original && is_timestamp target
      then outcome (time32_to_timestamp a)
      else if is_time64_type original && is_timestamp target
      then outcome (time64_to_timestamp a)
      else if is_string_type original && is_date target
      then outcome (string_to_date a)
      else if is_decimal_type original && is_character target
      then decimals_to_strings a
      else if is_complex_type original && is_character target
      then outcome (arrow.convert_to_json a)
      else outcome (default_conversion target a)
