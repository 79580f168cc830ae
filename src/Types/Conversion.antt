-- ===== src/Types/Conversion.antt =====
-- The conversions between the types of ODBC 2 and ODBC 3, flight_sql/utils.cc.
use gizmosql_odbc_driver.Prelude.{Bool, Option, none, some, if◌then◌else◌}
use gizmosql_odbc_driver.Prelude.Int.{ℤ, pos, negsuc, eq_ℤ}
use gizmosql_odbc_driver.Types.{ArrowType, SqlDataType, CDataType, sql_code, c_type_of}

abbrev pub get_default_sql_char_type : Bool → SqlDataType
get_default_sql_char_type wide = if wide then SqlDataType.wchar else SqlDataType.char

abbrev pub get_default_sql_varchar_type : Bool → SqlDataType
get_default_sql_varchar_type wide = if wide then SqlDataType.wvarchar else SqlDataType.varchar

abbrev pub get_default_c_char_type : Bool → CDataType
get_default_c_char_type wide = if wide then CDataType.wchar else CDataType.char

-- Every type that the switch does not map is a VARCHAR.
unfoldable pub get_data_type_from_arrow_field_v3 : ArrowType → Bool → SqlDataType
get_data_type_from_arrow_field_v3 ArrowType.bool wide = SqlDataType.bit
get_data_type_from_arrow_field_v3 ArrowType.uint8 wide = SqlDataType.tinyint
get_data_type_from_arrow_field_v3 ArrowType.int8 wide = SqlDataType.tinyint
get_data_type_from_arrow_field_v3 ArrowType.uint16 wide = SqlDataType.smallint
get_data_type_from_arrow_field_v3 ArrowType.int16 wide = SqlDataType.smallint
get_data_type_from_arrow_field_v3 ArrowType.uint32 wide = SqlDataType.integer
get_data_type_from_arrow_field_v3 ArrowType.int32 wide = SqlDataType.integer
get_data_type_from_arrow_field_v3 ArrowType.uint64 wide = SqlDataType.bigint
get_data_type_from_arrow_field_v3 ArrowType.int64 wide = SqlDataType.bigint
get_data_type_from_arrow_field_v3 ArrowType.half_float wide = SqlDataType.float
get_data_type_from_arrow_field_v3 ArrowType.float wide = SqlDataType.float
get_data_type_from_arrow_field_v3 ArrowType.double wide = SqlDataType.double
get_data_type_from_arrow_field_v3 ArrowType.binary wide = SqlDataType.binary
get_data_type_from_arrow_field_v3 ArrowType.fixed_size_binary wide = SqlDataType.binary
get_data_type_from_arrow_field_v3 ArrowType.large_binary wide = SqlDataType.binary
get_data_type_from_arrow_field_v3 ArrowType.date32 wide = SqlDataType.type_date
get_data_type_from_arrow_field_v3 ArrowType.date64 wide = SqlDataType.type_date
get_data_type_from_arrow_field_v3 ArrowType.timestamp wide = SqlDataType.type_timestamp
get_data_type_from_arrow_field_v3 ArrowType.decimal128 wide = SqlDataType.decimal
get_data_type_from_arrow_field_v3 ArrowType.time32 wide = SqlDataType.type_time
get_data_type_from_arrow_field_v3 ArrowType.time64 wide = SqlDataType.type_time
get_data_type_from_arrow_field_v3 ArrowType.interval_months wide = SqlDataType.interval_month
get_data_type_from_arrow_field_v3 ArrowType.interval_day_time wide = SqlDataType.interval_day
get_data_type_from_arrow_field_v3 _ wide = get_default_sql_varchar_type wide

unfoldable pub ensure_right_sql_char_type : SqlDataType → Bool → SqlDataType
ensure_right_sql_char_type SqlDataType.char wide = get_default_sql_char_type wide
ensure_right_sql_char_type SqlDataType.wchar wide = get_default_sql_char_type wide
ensure_right_sql_char_type SqlDataType.varchar wide = get_default_sql_varchar_type wide
ensure_right_sql_char_type SqlDataType.wvarchar wide = get_default_sql_varchar_type wide
ensure_right_sql_char_type t wide = t

unfoldable pub convert_sql_data_type_from_v3_to_v2 : ℤ → ℤ
convert_sql_data_type_from_v3_to_v2 n =
    if eq_ℤ n (pos 91)
    then pos 9
    else if eq_ℤ n (pos 92)
    then pos 10
    else if eq_ℤ n (pos 93)
    then pos 11
    else n

unfoldable pub convert_c_data_type_from_v2_to_v3 : ℤ → CDataType
unfolding c_type_of
convert_c_data_type_from_v2_to_v3 n =
    if eq_ℤ n (negsuc 5)
    then CDataType.stinyint
    else if eq_ℤ n (pos 4)
    then CDataType.slong
    else if eq_ℤ n (pos 5)
    then CDataType.sshort
    else if eq_ℤ n (pos 7)
    then CDataType.float
    else if eq_ℤ n (pos 8)
    then CDataType.double
    else if eq_ℤ n (pos 9)
    then CDataType.date
    else if eq_ℤ n (pos 10)
    then CDataType.time
    else if eq_ℤ n (pos 11)
    then CDataType.timestamp
    else c_type_of n

unfoldable pub get_radix_from_sql_data_type : SqlDataType → Option ℤ
get_radix_from_sql_data_type SqlDataType.decimal = some (pos 10)
get_radix_from_sql_data_type SqlDataType.numeric = some (pos 10)
get_radix_from_sql_data_type SqlDataType.smallint = some (pos 10)
get_radix_from_sql_data_type SqlDataType.tinyint = some (pos 10)
get_radix_from_sql_data_type SqlDataType.integer = some (pos 10)
get_radix_from_sql_data_type SqlDataType.bigint = some (pos 10)
get_radix_from_sql_data_type SqlDataType.real = some (pos 2)
get_radix_from_sql_data_type SqlDataType.float = some (pos 2)
get_radix_from_sql_data_type SqlDataType.double = some (pos 2)
get_radix_from_sql_data_type _ = none

unfoldable pub get_non_concise_data_type : SqlDataType → ℤ
unfolding sql_code
get_non_concise_data_type SqlDataType.type_date = pos 9
get_non_concise_data_type SqlDataType.type_time = pos 9
get_non_concise_data_type SqlDataType.type_timestamp = pos 9
get_non_concise_data_type SqlDataType.interval_month = pos 10
get_non_concise_data_type SqlDataType.interval_year = pos 10
get_non_concise_data_type SqlDataType.interval_year_to_month = pos 10
get_non_concise_data_type SqlDataType.interval_day = pos 10
get_non_concise_data_type SqlDataType.interval_hour = pos 10
get_non_concise_data_type SqlDataType.interval_minute = pos 10
get_non_concise_data_type SqlDataType.interval_second = pos 10
get_non_concise_data_type SqlDataType.interval_day_to_hour = pos 10
get_non_concise_data_type SqlDataType.interval_day_to_minute = pos 10
get_non_concise_data_type SqlDataType.interval_day_to_second = pos 10
get_non_concise_data_type SqlDataType.interval_hour_to_minute = pos 10
get_non_concise_data_type SqlDataType.interval_hour_to_second = pos 10
get_non_concise_data_type SqlDataType.interval_minute_to_second = pos 10
get_non_concise_data_type t = sql_code t

-- SqlDateTimeSubCode
unfoldable pub get_sql_date_time_sub_code : SqlDataType → Option ℤ
get_sql_date_time_sub_code SqlDataType.type_date = some (pos 1)
get_sql_date_time_sub_code SqlDataType.type_time = some (pos 2)
get_sql_date_time_sub_code SqlDataType.type_timestamp = some (pos 3)
get_sql_date_time_sub_code SqlDataType.interval_year = some (pos 1)
get_sql_date_time_sub_code SqlDataType.interval_month = some (pos 2)
get_sql_date_time_sub_code SqlDataType.interval_day = some (pos 3)
get_sql_date_time_sub_code SqlDataType.interval_hour = some (pos 4)
get_sql_date_time_sub_code SqlDataType.interval_minute = some (pos 5)
get_sql_date_time_sub_code SqlDataType.interval_second = some (pos 6)
get_sql_date_time_sub_code SqlDataType.interval_year_to_month = some (pos 7)
get_sql_date_time_sub_code SqlDataType.interval_day_to_hour = some (pos 8)
get_sql_date_time_sub_code SqlDataType.interval_day_to_minute = some (pos 9)
get_sql_date_time_sub_code SqlDataType.interval_day_to_second = some (pos 10)
get_sql_date_time_sub_code SqlDataType.interval_hour_to_minute = some (pos 11)
get_sql_date_time_sub_code SqlDataType.interval_hour_to_second = some (pos 12)
get_sql_date_time_sub_code SqlDataType.interval_minute_to_second = some (pos 13)
get_sql_date_time_sub_code _ = none
