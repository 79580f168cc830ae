-- ===== src/Types/Sizes.antt =====
-- The sizes that flight_sql/utils.cc reports for each SQL type. A column size is an int32_t; a
-- multiple of it wraps as the conversion back to int32_t does.
use gizmosql_odbc_driver.Prelude.{ℕ, ◌+◌, ◌*◌, Option, none, some}
use gizmosql_odbc_driver.Prelude.Int.{ℤ, pos, to_signed, to_size}
use gizmosql_odbc_driver.Types.{SqlDataType}

abbrev pub scaled : ℕ → ℤ → ℤ
scaled k size = to_signed 32 (to_size size * k)

abbrev pub scaled? : ℕ → Option ℤ → Option ℤ
scaled? k none = none
scaled? k (some size) = some (scaled k size)

abbrev pub plus_two? : Option ℤ → Option ℤ
plus_two? none = none
plus_two? (some size) = some (to_signed 32 (to_size size + 2))

-- `column_size` is `none` for a failed arrow::Result. `wchar_size` is GetSqlWCharSize(), 2 or 4.
unfoldable pub get_char_octet_length : SqlDataType → ℕ → Option ℤ → ℤ → Option ℤ
get_char_octet_length SqlDataType.binary wchar_size column_size decimal_precision = column_size
get_char_octet_length SqlDataType.varbinary wchar_size column_size decimal_precision = column_size
get_char_octet_length SqlDataType.longvarbinary wchar_size column_size decimal_precision =
    column_size
get_char_octet_length SqlDataType.char wchar_size column_size decimal_precision = column_size
get_char_octet_length SqlDataType.varchar wchar_size column_size decimal_precision = column_size
get_char_octet_length SqlDataType.longvarchar wchar_size column_size decimal_precision = column_size
get_char_octet_length SqlDataType.wchar wchar_size column_size decimal_precision =
    scaled? wchar_size column_size
get_char_octet_length SqlDataType.wvarchar wchar_size column_size decimal_precision =
    scaled? wchar_size column_size
get_char_octet_length SqlDataType.wlongvarchar wchar_size column_size decimal_precision =
    scaled? wchar_size column_size
get_char_octet_length SqlDataType.tinyint wchar_size column_size decimal_precision = some (pos 1)
get_char_octet_length SqlDataType.bit wchar_size column_size decimal_precision = some (pos 1)
get_char_octet_length SqlDataType.smallint wchar_size column_size decimal_precision = some (pos 2)
get_char_octet_length SqlDataType.integer wchar_size column_size decimal_precision = some (pos 4)
get_char_octet_length SqlDataType.bigint wchar_size column_size decimal_precision = some (pos 8)
get_char_octet_length SqlDataType.float wchar_size column_size decimal_precision = some (pos 8)
get_char_octet_length SqlDataType.double wchar_size column_size decimal_precision = some (pos 8)
get_char_octet_length SqlDataType.decimal wchar_size column_size decimal_precision =
    plus_two? (some decimal_precision)
get_char_octet_length SqlDataType.numeric wchar_size column_size decimal_precision =
    plus_two? (some decimal_precision)
get_char_octet_length SqlDataType.type_date wchar_size column_size decimal_precision = some (pos 6)
get_char_octet_length SqlDataType.type_time wchar_size column_size decimal_precision = some (pos 6)
get_char_octet_length SqlDataType.type_timestamp wchar_size column_size decimal_precision =
    some (pos 16)
get_char_octet_length SqlDataType.interval_month wchar_size column_size decimal_precision =
    some (pos 34)
get_char_octet_length SqlDataType.interval_year wchar_size column_size decimal_precision =
    some (pos 34)
get_char_octet_length SqlDataType.interval_year_to_month wchar_size column_size decimal_precision =
    some (pos 34)
get_char_octet_length SqlDataType.interval_day wchar_size column_size decimal_precision =
    some (pos 34)
get_char_octet_length SqlDataType.interval_hour wchar_size column_size decimal_precision =
    some (pos 34)
get_char_octet_length SqlDataType.interval_minute wchar_size column_size decimal_precision =
    some (pos 34)
get_char_octet_length SqlDataType.interval_second wchar_size column_size decimal_precision =
    some (pos 34)
get_char_octet_length SqlDataType.interval_day_to_hour wchar_size column_size decimal_precision =
    some (pos 34)
get_char_octet_length SqlDataType.interval_day_to_minute wchar_size column_size decimal_precision =
    some (pos 34)
get_char_octet_length SqlDataType.interval_day_to_second wchar_size column_size decimal_precision =
    some (pos 34)
get_char_octet_length SqlDataType.interval_hour_to_minute wchar_size column_size decimal_precision =
    some (pos 34)
get_char_octet_length SqlDataType.interval_hour_to_second wchar_size column_size decimal_precision =
    some (pos 34)
get_char_octet_length SqlDataType.interval_minute_to_second wchar_size column_size
      decimal_precision =
    some (pos 34)
get_char_octet_length SqlDataType.guid wchar_size column_size decimal_precision = some (pos 16)
get_char_octet_length _ wchar_size column_size decimal_precision = none

unfoldable pub get_type_scale : SqlDataType → Option ℤ → Option ℤ
get_type_scale SqlDataType.type_timestamp type_scale = some (pos 3)
get_type_scale SqlDataType.type_time type_scale = some (pos 3)
get_type_scale SqlDataType.decimal type_scale = type_scale
get_type_scale SqlDataType.numeric type_scale = type_scale
get_type_scale SqlDataType.tinyint type_scale = some (pos 0)
get_type_scale SqlDataType.smallint type_scale = some (pos 0)
get_type_scale SqlDataType.integer type_scale = some (pos 0)
get_type_scale SqlDataType.bigint type_scale = some (pos 0)
get_type_scale _ type_scale = none

unfoldable pub get_column_size : SqlDataType → ℕ → Option ℤ → Option ℤ
get_column_size SqlDataType.char wchar_size column_size = column_size
get_column_size SqlDataType.varchar wchar_size column_size = column_size
get_column_size SqlDataType.longvarchar wchar_size column_size = column_size
get_column_size SqlDataType.wchar wchar_size column_size = scaled? wchar_size column_size
get_column_size SqlDataType.wvarchar wchar_size column_size = scaled? wchar_size column_size
get_column_size SqlDataType.wlongvarchar wchar_size column_size = scaled? wchar_size column_size
get_column_size SqlDataType.binary wchar_size column_size = column_size
get_column_size SqlDataType.varbinary wchar_size column_size = column_size
get_column_size SqlDataType.longvarbinary wchar_size column_size = column_size
get_column_size SqlDataType.decimal wchar_size column_size = some (pos 19)
get_column_size SqlDataType.numeric wchar_size column_size = some (pos 19)
get_column_size SqlDataType.bit wchar_size column_size = some (pos 1)
get_column_size SqlDataType.tinyint wchar_size column_size = some (pos 1)
get_column_size SqlDataType.smallint wchar_size column_size = some (pos 2)
get_column_size SqlDataType.integer wchar_size column_size = some (pos 4)
get_column_size SqlDataType.bigint wchar_size column_size = some (pos 8)
get_column_size SqlDataType.real wchar_size column_size = some (pos 4)
get_column_size SqlDataType.float wchar_size column_size = some (pos 8)
get_column_size SqlDataType.double wchar_size column_size = some (pos 8)
get_column_size SqlDataType.type_date wchar_size column_size = some (pos 10)
get_column_size SqlDataType.type_time wchar_size column_size = some (pos 12)
get_column_size SqlDataType.type_timestamp wchar_size column_size = some (pos 23)
get_column_size SqlDataType.interval_month wchar_size column_size = some (pos 28)
get_column_size SqlDataType.interval_year wchar_size column_size = some (pos 28)
get_column_size SqlDataType.interval_year_to_month wchar_size column_size = some (pos 28)
get_column_size SqlDataType.interval_day wchar_size column_size = some (pos 28)
get_column_size SqlDataType.interval_hour wchar_size column_size = some (pos 28)
get_column_size SqlDataType.interval_minute wchar_size column_size = some (pos 28)
get_column_size SqlDataType.interval_second wchar_size column_size = some (pos 28)
get_column_size SqlDataType.interval_day_to_hour wchar_size column_size = some (pos 28)
get_column_size SqlDataType.interval_day_to_minute wchar_size column_size = some (pos 28)
get_column_size SqlDataType.interval_day_to_second wchar_size column_size = some (pos 28)
get_column_size SqlDataType.interval_hour_to_minute wchar_size column_size = some (pos 28)
get_column_size SqlDataType.interval_hour_to_second wchar_size column_size = some (pos 28)
get_column_size SqlDataType.interval_minute_to_second wchar_size column_size = some (pos 28)
get_column_size SqlDataType.guid wchar_size column_size = some (pos 16)

unfoldable pub get_buffer_length : SqlDataType → ℕ → Option ℤ → Option ℤ
get_buffer_length SqlDataType.char wchar_size column_size = column_size
get_buffer_length SqlDataType.varchar wchar_size column_size = column_size
get_buffer_length SqlDataType.longvarchar wchar_size column_size = column_size
get_buffer_length SqlDataType.wchar wchar_size column_size = scaled? wchar_size column_size
get_buffer_length SqlDataType.wvarchar wchar_size column_size = scaled? wchar_size column_size
get_buffer_length SqlDataType.wlongvarchar wchar_size column_size = scaled? wchar_size column_size
get_buffer_length SqlDataType.binary wchar_size column_size = column_size
get_buffer_length SqlDataType.varbinary wchar_size column_size = column_size
get_buffer_length SqlDataType.longvarbinary wchar_size column_size = column_size
get_buffer_length SqlDataType.decimal wchar_size column_size = some (pos 19)
get_buffer_length SqlDataType.numeric wchar_size column_size = some (pos 19)
get_buffer_length SqlDataType.bit wchar_size column_size = some (pos 1)
get_buffer_length SqlDataType.tinyint wchar_size column_size = some (pos 1)
get_buffer_length SqlDataType.smallint wchar_size column_size = some (pos 2)
get_buffer_length SqlDataType.integer wchar_size column_size = some (pos 4)
get_buffer_length SqlDataType.bigint wchar_size column_size = some (pos 8)
get_buffer_length SqlDataType.real wchar_size column_size = some (pos 4)
get_buffer_length SqlDataType.float wchar_size column_size = some (pos 8)
get_buffer_length SqlDataType.double wchar_size column_size = some (pos 8)
get_buffer_length SqlDataType.type_date wchar_size column_size = some (pos 10)
get_buffer_length SqlDataType.type_time wchar_size column_size = some (pos 12)
get_buffer_length SqlDataType.type_timestamp wchar_size column_size = some (pos 23)
get_buffer_length SqlDataType.interval_month wchar_size column_size = some (pos 28)
get_buffer_length SqlDataType.interval_year wchar_size column_size = some (pos 28)
get_buffer_length SqlDataType.interval_year_to_month wchar_size column_size = some (pos 28)
get_buffer_length SqlDataType.interval_day wchar_size column_size = some (pos 28)
get_buffer_length SqlDataType.interval_hour wchar_size column_size = some (pos 28)
get_buffer_length SqlDataType.interval_minute wchar_size column_size = some (pos 28)
get_buffer_length SqlDataType.interval_second wchar_size column_size = some (pos 28)
get_buffer_length SqlDataType.interval_day_to_hour wchar_size column_size = some (pos 28)
get_buffer_length SqlDataType.interval_day_to_minute wchar_size column_size = some (pos 28)
get_buffer_length SqlDataType.interval_day_to_second wchar_size column_size = some (pos 28)
get_buffer_length SqlDataType.interval_hour_to_minute wchar_size column_size = some (pos 28)
get_buffer_length SqlDataType.interval_hour_to_second wchar_size column_size = some (pos 28)
get_buffer_length SqlDataType.interval_minute_to_second wchar_size column_size = some (pos 28)
get_buffer_length SqlDataType.guid wchar_size column_size = some (pos 16)

unfoldable pub get_length : SqlDataType → Option ℤ → Option ℤ
get_length SqlDataType.char column_size = column_size
get_length SqlDataType.varchar column_size = column_size
get_length SqlDataType.longvarchar column_size = column_size
get_length SqlDataType.wchar column_size = column_size
get_length SqlDataType.wvarchar column_size = column_size
get_length SqlDataType.wlongvarchar column_size = column_size
get_length SqlDataType.binary column_size = column_size
get_length SqlDataType.varbinary column_size = column_size
get_length SqlDataType.longvarbinary column_size = column_size
get_length SqlDataType.decimal column_size = some (pos 19)
get_length SqlDataType.numeric column_size = some (pos 19)
get_length SqlDataType.bit column_size = some (pos 1)
get_length SqlDataType.tinyint column_size = some (pos 1)
get_length SqlDataType.smallint column_size = some (pos 2)
get_length SqlDataType.integer column_size = some (pos 4)
get_length SqlDataType.bigint column_size = some (pos 8)
get_length SqlDataType.real column_size = some (pos 4)
get_length SqlDataType.float column_size = some (pos 8)
get_length SqlDataType.double column_size = some (pos 8)
get_length SqlDataType.type_date column_size = some (pos 10)
get_length SqlDataType.type_time column_size = some (pos 12)
get_length SqlDataType.type_timestamp column_size = some (pos 23)
get_length SqlDataType.interval_month column_size = some (pos 28)
get_length SqlDataType.interval_year column_size = some (pos 28)
get_length SqlDataType.interval_year_to_month column_size = some (pos 28)
get_length SqlDataType.interval_day column_size = some (pos 28)
get_length SqlDataType.interval_hour column_size = some (pos 28)
get_length SqlDataType.interval_minute column_size = some (pos 28)
get_length SqlDataType.interval_second column_size = some (pos 28)
get_length SqlDataType.interval_day_to_hour column_size = some (pos 28)
get_length SqlDataType.interval_day_to_minute column_size = some (pos 28)
get_length SqlDataType.interval_day_to_second column_size = some (pos 28)
get_length SqlDataType.interval_hour_to_minute column_size = some (pos 28)
get_length SqlDataType.interval_hour_to_second column_size = some (pos 28)
get_length SqlDataType.interval_minute_to_second column_size = some (pos 28)
get_length SqlDataType.guid column_size = some (pos 16)

unfoldable pub get_display_size : SqlDataType → Option ℤ → Option ℤ
get_display_size SqlDataType.char column_size = column_size
get_display_size SqlDataType.varchar column_size = column_size
get_display_size SqlDataType.longvarchar column_size = column_size
get_display_size SqlDataType.wchar column_size = column_size
get_display_size SqlDataType.wvarchar column_size = column_size
get_display_size SqlDataType.wlongvarchar column_size = column_size
get_display_size SqlDataType.binary column_size = scaled? 2 column_size
get_display_size SqlDataType.varbinary column_size = scaled? 2 column_size
get_display_size SqlDataType.longvarbinary column_size = scaled? 2 column_size
get_display_size SqlDataType.decimal column_size = plus_two? column_size
get_display_size SqlDataType.numeric column_size = plus_two? column_size
get_display_size SqlDataType.bit column_size = some (pos 1)
get_display_size SqlDataType.tinyint column_size = some (pos 4)
get_display_size SqlDataType.smallint column_size = some (pos 6)
get_display_size SqlDataType.integer column_size = some (pos 11)
get_display_size SqlDataType.bigint column_size = some (pos 20)
get_display_size SqlDataType.real column_size = some (pos 14)
get_display_size SqlDataType.float column_size = some (pos 24)
get_display_size SqlDataType.double column_size = some (pos 24)
get_display_size SqlDataType.type_date column_size = some (pos 10)
get_display_size SqlDataType.type_time column_size = some (pos 12)
get_display_size SqlDataType.type_timestamp column_size = some (pos 23)
get_display_size SqlDataType.guid column_size = some (pos 36)
get_display_size _ column_size = none
