-- ===== src/Types/Laws.antt =====
-- What the type tables agree on.
use gizmosql_odbc_driver.Prelude.{
  ℕ, String, ◌≡◌, subst, refl, Bool, true, false, Option, none, some, arith, if◌then◌else◌, ◌==◌,
  ◌||◌, ◌+◌, ◌-◌,
}
use gizmosql_odbc_driver.Prelude.Int.{ℤ, pos, negsuc, eq_ℤ}
use gizmosql_odbc_driver.Exceptions.{Result, ok, err}
use gizmosql_odbc_driver.Types.{ArrowType, SqlDataType, CDataType, sql_code, c_code, c_type_of}
use gizmosql_odbc_driver.Types.Conversion.{
  convert_sql_data_type_from_v3_to_v2, convert_c_data_type_from_v2_to_v3, get_non_concise_data_type,
  get_sql_date_time_sub_code,
}
use gizmosql_odbc_driver.Types.Names.{get_type_name_from_sql_data_type}
use gizmosql_odbc_driver.Types.Sizes.{get_column_size, get_buffer_length}
use gizmosql_odbc_driver.Types.Arrow.{
  need_array_conversion, convert_c_to_arrow_type, convert_arrow_type_to_c,
  get_default_data_type_for_type_id,
}

-- The concise types by number, as the ODBC reference lists them: a datetime or an interval
-- type is named by its verbose type, 9 or 10, with its subcode, and any other type by its code.
concise_datetime : ℕ → Option SqlDataType
concise_datetime n =
    if n == 1
    then some SqlDataType.type_date
    else if n == 2
    then some SqlDataType.type_time
    else if n == 3
    then some SqlDataType.type_timestamp
    else none

concise_interval : ℕ → Option SqlDataType
concise_interval n =
    if n == 1
    then some SqlDataType.interval_year
    else if n == 2
    then some SqlDataType.interval_month
    else if n == 3
    then some SqlDataType.interval_day
    else if n == 4
    then some SqlDataType.interval_hour
    else if n == 5
    then some SqlDataType.interval_minute
    else if n == 6
    then some SqlDataType.interval_second
    else if n == 7
    then some SqlDataType.interval_year_to_month
    else if n == 8
    then some SqlDataType.interval_day_to_hour
    else if n == 9
    then some SqlDataType.interval_day_to_minute
    else if n == 10
    then some SqlDataType.interval_day_to_second
    else if n == 11
    then some SqlDataType.interval_hour_to_minute
    else if n == 12
    then some SqlDataType.interval_hour_to_second
    else if n == 13
    then some SqlDataType.interval_minute_to_second
    else none

plain_type : ℤ → Option SqlDataType
plain_type n =
    if eq_ℤ n (pos 1)
    then some SqlDataType.char
    else if eq_ℤ n (pos 12)
    then some SqlDataType.varchar
    else if eq_ℤ n (negsuc 0)
    then some SqlDataType.longvarchar
    else if eq_ℤ n (negsuc 7)
    then some SqlDataType.wchar
    else if eq_ℤ n (negsuc 8)
    then some SqlDataType.wvarchar
    else if eq_ℤ n (negsuc 9)
    then some SqlDataType.wlongvarchar
    else if eq_ℤ n (pos 3)
    then some SqlDataType.decimal
    else if eq_ℤ n (pos 2)
    then some SqlDataType.numeric
    else if eq_ℤ n (pos 5)
    then some SqlDataType.smallint
    else if eq_ℤ n (pos 4)
    then some SqlDataType.integer
    else if eq_ℤ n (pos 7)
    then some SqlDataType.real
    else if eq_ℤ n (pos 6)
    then some SqlDataType.float
    else if eq_ℤ n (pos 8)
    then some SqlDataType.double
    else if eq_ℤ n (negsuc 6)
    then some SqlDataType.bit
    else if eq_ℤ n (negsuc 5)
    then some SqlDataType.tinyint
    else if eq_ℤ n (negsuc 4)
    then some SqlDataType.bigint
    else if eq_ℤ n (negsuc 1)
    then some SqlDataType.binary
    else if eq_ℤ n (negsuc 2)
    then some SqlDataType.varbinary
    else if eq_ℤ n (negsuc 3)
    then some SqlDataType.longvarbinary
    else if eq_ℤ n (negsuc 10)
    then some SqlDataType.guid
    else none

pub concise_type : ℤ → Option ℤ → Option SqlDataType
unfolding concise_datetime concise_interval plain_type
concise_type (pos v) (some (pos n)) = if v == 9 then concise_datetime n else concise_interval n
concise_type v s = plain_type v

-- The verbose type and the subcode together give back the concise type, for every SQL type.
pub concise_type-get_non_concise_data_type :
    (t : SqlDataType)
    → concise_type (get_non_concise_data_type t) (get_sql_date_time_sub_code t) ≡ some t
unfolding concise_type get_non_concise_data_type get_sql_date_time_sub_code
concise_type-get_non_concise_data_type SqlDataType.char = refl
concise_type-get_non_concise_data_type _ = refl

-- A type has one name, whether its code is that of ODBC 3 or was converted to that of ODBC 2.
pub get_type_name-convert :
    (t : SqlDataType)
    → (get_type_name_from_sql_data_type (convert_sql_data_type_from_v3_to_v2 (sql_code t))
        ≡ get_type_name_from_sql_data_type (sql_code t))
      × ((name : String) × (get_type_name_from_sql_data_type (sql_code t) ≡ ok name))
unfolding get_type_name_from_sql_data_type convert_sql_data_type_from_v3_to_v2 sql_code
get_type_name-convert SqlDataType.char = (refl, ("CHAR", refl))
get_type_name-convert SqlDataType.varchar = (refl, ("VARCHAR", refl))
get_type_name-convert SqlDataType.longvarchar = (refl, ("LONGVARCHAR", refl))
get_type_name-convert SqlDataType.wchar = (refl, ("WCHAR", refl))
get_type_name-convert SqlDataType.wvarchar = (refl, ("WVARCHAR", refl))
get_type_name-convert SqlDataType.wlongvarchar = (refl, ("WLONGVARCHAR", refl))
get_type_name-convert SqlDataType.decimal = (refl, ("DECIMAL", refl))
get_type_name-convert SqlDataType.numeric = (refl, ("NUMERIC", refl))
get_type_name-convert SqlDataType.smallint = (refl, ("SMALLINT", refl))
get_type_name-convert SqlDataType.integer = (refl, ("INTEGER", refl))
get_type_name-convert SqlDataType.real = (refl, ("REAL", refl))
get_type_name-convert SqlDataType.float = (refl, ("FLOAT", refl))
get_type_name-convert SqlDataType.double = (refl, ("DOUBLE", refl))
get_type_name-convert SqlDataType.bit = (refl, ("BIT", refl))
get_type_name-convert SqlDataType.tinyint = (refl, ("TINYINT", refl))
get_type_name-convert SqlDataType.bigint = (refl, ("BIGINT", refl))
get_type_name-convert SqlDataType.binary = (refl, ("BINARY", refl))
get_type_name-convert SqlDataType.varbinary = (refl, ("VARBINARY", refl))
get_type_name-convert SqlDataType.longvarbinary = (refl, ("LONGVARBINARY", refl))
get_type_name-convert SqlDataType.type_date = (refl, ("DATE", refl))
get_type_name-convert SqlDataType.type_time = (refl, ("TIME", refl))
get_type_name-convert SqlDataType.type_timestamp = (refl, ("TIMESTAMP", refl))
get_type_name-convert SqlDataType.interval_month = (refl, ("INTERVAL_MONTH", refl))
get_type_name-convert SqlDataType.interval_year = (refl, ("INTERVAL_YEAR", refl))
get_type_name-convert SqlDataType.interval_year_to_month = (refl, ("INTERVAL_YEAR_TO_MONTH", refl))
get_type_name-convert SqlDataType.interval_day = (refl, ("INTERVAL_DAY", refl))
get_type_name-convert SqlDataType.interval_hour = (refl, ("INTERVAL_HOUR", refl))
get_type_name-convert SqlDataType.interval_minute = (refl, ("INTERVAL_MINUTE", refl))
get_type_name-convert SqlDataType.interval_second = (refl, ("INTERVAL_SECOND", refl))
get_type_name-convert SqlDataType.interval_day_to_hour = (refl, ("INTERVAL_DAY_TO_HOUR", refl))
get_type_name-convert SqlDataType.interval_day_to_minute = (refl, ("INTERVAL_DAY_TO_MINUTE", refl))
get_type_name-convert SqlDataType.interval_day_to_second = (refl, ("INTERVAL_DAY_TO_SECOND", refl))
get_type_name-convert SqlDataType.interval_hour_to_minute =
    (refl, ("INTERVAL_HOUR_TO_MINUTE", refl))
get_type_name-convert SqlDataType.interval_hour_to_second =
    (refl, ("INTERVAL_HOUR_TO_SECOND", refl))
get_type_name-convert SqlDataType.interval_minute_to_second =
    (refl, ("INTERVAL_MINUTE_TO_SECOND", refl))
get_type_name-convert SqlDataType.guid = (refl, ("GUID", refl))

-- The number of a C type in ODBC 3, as the ODBC headers have it: the integers that were signed by
-- default in ODBC 2 get SQL_SIGNED_OFFSET, -20, and date, time and timestamp are 82 further on.
unfoldable pub odbc3_c_type : ℤ → ℤ
odbc3_c_type (pos n) =
    if n == 4 || n == 5
    then negsuc (19 - n)
    else if n == 9 || n == 10 || n == 11
    then pos (n + 82)
    else pos n
odbc3_c_type (negsuc k) = if k == 5 then negsuc (k + 20) else negsuc k

-- Converting a C type to ODBC 3 gives the number that the ODBC headers have for it there, for each
-- number.
pub convert_c_data_type_from_v2_to_v3_lem :
    (n : ℤ) → c_code (convert_c_data_type_from_v2_to_v3 n) ≡ odbc3_c_type n
unfolding convert_c_data_type_from_v2_to_v3 c_type_of c_code odbc3_c_type
convert_c_data_type_from_v2_to_v3_lem (pos n) = ground arith
convert_c_data_type_from_v2_to_v3_lem (negsuc k) = ground arith

-- The column size and the buffer length of a type are the same number.
pub get_column_size-eq-get_buffer_length :
    (t : SqlDataType) (wchar_size : ℕ) (size : Option ℤ)
    → get_column_size t wchar_size size ≡ get_buffer_length t wchar_size size
unfolding get_column_size get_buffer_length
get_column_size-eq-get_buffer_length SqlDataType.char wchar_size size = refl
get_column_size-eq-get_buffer_length _ wchar_size size = refl

-- What holds of the default C type `r` of the Arrow type `t`, if it has one.
abbrev IsDefault : (ArrowType → ℤ) → ArrowType → Bool → Result CDataType → Type 0
IsDefault k t wide (err e) = Unit
IsDefault k t wide (ok c) =
    (need_array_conversion t c ≡ ok false)
    × ((u : ArrowType) × (convert_c_to_arrow_type c ≡ ok u)
        × (convert_arrow_type_to_c k u wide ≡ ok c)
        × (get_default_data_type_for_type_id k u ≡ ok u))

default_c_type :
    (k : ArrowType → ℤ) (t : ArrowType) (wide : Bool)
    → IsDefault k t wide (convert_arrow_type_to_c k t wide)
unfolding convert_arrow_type_to_c need_array_conversion convert_c_to_arrow_type
    get_default_data_type_for_type_id
default_c_type k ArrowType.string true = (refl, (ArrowType.string, refl, refl, refl))
default_c_type k ArrowType.string false = (refl, (ArrowType.string, refl, refl, refl))
default_c_type k ArrowType.int16 wide = (refl, (ArrowType.int16, refl, refl, refl))
default_c_type k ArrowType.uint16 wide = (refl, (ArrowType.uint16, refl, refl, refl))
default_c_type k ArrowType.int32 wide = (refl, (ArrowType.int32, refl, refl, refl))
default_c_type k ArrowType.uint32 wide = (refl, (ArrowType.uint32, refl, refl, refl))
default_c_type k ArrowType.float wide = (refl, (ArrowType.float, refl, refl, refl))
default_c_type k ArrowType.double wide = (refl, (ArrowType.double, refl, refl, refl))
default_c_type k ArrowType.bool wide = (refl, (ArrowType.bool, refl, refl, refl))
default_c_type k ArrowType.int8 wide = (refl, (ArrowType.int8, refl, refl, refl))
default_c_type k ArrowType.uint8 wide = (refl, (ArrowType.uint8, refl, refl, refl))
default_c_type k ArrowType.int64 wide = (refl, (ArrowType.int64, refl, refl, refl))
default_c_type k ArrowType.uint64 wide = (refl, (ArrowType.uint64, refl, refl, refl))
default_c_type k ArrowType.binary wide = (refl, (ArrowType.binary, refl, refl, refl))
default_c_type k ArrowType.decimal128 wide = (refl, (ArrowType.decimal128, refl, refl, refl))
default_c_type k ArrowType.date64 wide = (refl, (ArrowType.date64, refl, refl, refl))
default_c_type k ArrowType.date32 wide = (refl, (ArrowType.date64, refl, refl, refl))
default_c_type k ArrowType.time64 wide = (refl, (ArrowType.time64, refl, refl, refl))
default_c_type k ArrowType.time32 wide = (refl, (ArrowType.time64, refl, refl, refl))
default_c_type k ArrowType.timestamp wide = (refl, (ArrowType.timestamp, refl, refl, refl))
default_c_type k _ wide = tt

-- Binding a column with its default C type needs no conversion of the array. Converting another
-- array to that C type goes through an Arrow type that has a default instance and whose own
-- default is that C type again.
pub default_binding :
    (type_number : ArrowType → ℤ) (t : ArrowType) (wide : Bool) (c : CDataType)
    → convert_arrow_type_to_c type_number t wide ≡ ok c
    → (need_array_conversion t c ≡ ok false)
      × ((u : ArrowType) × (convert_c_to_arrow_type c ≡ ok u)
          × (convert_arrow_type_to_c type_number u wide ≡ ok c)
          × (get_default_data_type_for_type_id type_number u ≡ ok u))
unfolding convert_arrow_type_to_c need_array_conversion convert_c_to_arrow_type
    get_default_data_type_for_type_id
default_binding k t wide c h = subst (IsDefault k t wide) h (default_c_type k t wide)
