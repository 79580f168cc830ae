-- ===== src/Types.antt =====
-- The type codes of odbcabstraction/types.h, and the Arrow type identifiers that utils.cc names.
-- A C++ enumeration is a number: `sql_code` and `c_code` give it, and `c_type_of` is the cast of a
-- number to CDataType, which may be none of the enumerators.
pub mod Conversion
pub mod Sizes
pub mod Names
pub mod Arrow
pub mod Laws
pub mod Converter
pub mod Read
use gizmosql_odbc_driver.Prelude.{Bool, if◌then◌else◌}
use gizmosql_odbc_driver.Prelude.Int.{ℤ, pos, negsuc, eq_ℤ}

-- arrow::Type::type
pub data ArrowType : Type 0 where
  bool uint8 int8 uint16 int16 uint32 : ArrowType
  int32 uint64 int64 half_float float double : ArrowType
  binary fixed_size_binary large_binary string large_string date32 : ArrowType
  date64 timestamp decimal128 time32 time64 interval_months : ArrowType
  interval_day_time interval_month_day_nano list struct sparse_union dense_union : ArrowType
  dictionary map extension fixed_size_list duration large_list : ArrowType
  max_id na : ArrowType

pub data SqlDataType : Type 0 where
  char varchar longvarchar wchar wvarchar : SqlDataType
  wlongvarchar decimal numeric smallint integer : SqlDataType
  real float double bit tinyint : SqlDataType
  bigint binary varbinary longvarbinary type_date : SqlDataType
  type_time type_timestamp interval_month interval_year interval_year_to_month : SqlDataType
  interval_day interval_hour interval_minute interval_second interval_day_to_hour : SqlDataType
  interval_day_to_minute interval_day_to_second interval_hour_to_minute interval_hour_to_second
        interval_minute_to_second :
      SqlDataType
  guid : SqlDataType

pub data CDataType : Type 0 where
  char wchar sshort ushort slong ulong : CDataType
  float double bit date time timestamp : CDataType
  stinyint utinyint sbigint ubigint binary numeric : CDataType
  default : CDataType
  unlisted : ℤ → CDataType

unfoldable pub sql_code : SqlDataType → ℤ
sql_code SqlDataType.char = pos 1
sql_code SqlDataType.varchar = pos 12
sql_code SqlDataType.longvarchar = negsuc 0
sql_code SqlDataType.wchar = negsuc 7
sql_code SqlDataType.wvarchar = negsuc 8
sql_code SqlDataType.wlongvarchar = negsuc 9
sql_code SqlDataType.decimal = pos 3
sql_code SqlDataType.numeric = pos 2
sql_code SqlDataType.smallint = pos 5
sql_code SqlDataType.integer = pos 4
sql_code SqlDataType.real = pos 7
sql_code SqlDataType.float = pos 6
sql_code SqlDataType.double = pos 8
sql_code SqlDataType.bit = negsuc 6
sql_code SqlDataType.tinyint = negsuc 5
sql_code SqlDataType.bigint = negsuc 4
sql_code SqlDataType.binary = negsuc 1
sql_code SqlDataType.varbinary = negsuc 2
sql_code SqlDataType.longvarbinary = negsuc 3
sql_code SqlDataType.type_date = pos 91
sql_code SqlDataType.type_time = pos 92
sql_code SqlDataType.type_timestamp = pos 93
sql_code SqlDataType.interval_month = pos 102
sql_code SqlDataType.interval_year = pos 101
sql_code SqlDataType.interval_year_to_month = pos 107
sql_code SqlDataType.interval_day = pos 103
sql_code SqlDataType.interval_hour = pos 104
sql_code SqlDataType.interval_minute = pos 105
sql_code SqlDataType.interval_second = pos 106
sql_code SqlDataType.interval_day_to_hour = pos 108
sql_code SqlDataType.interval_day_to_minute = pos 109
sql_code SqlDataType.interval_day_to_second = pos 110
sql_code SqlDataType.interval_hour_to_minute = pos 111
sql_code SqlDataType.interval_hour_to_second = pos 112
sql_code SqlDataType.interval_minute_to_second = pos 113
sql_code SqlDataType.guid = negsuc 10

unfoldable pub c_code : CDataType → ℤ
c_code CDataType.char = pos 1
c_code CDataType.wchar = negsuc 7
c_code CDataType.sshort = negsuc 14
c_code CDataType.ushort = negsuc 16
c_code CDataType.slong = negsuc 15
c_code CDataType.ulong = negsuc 17
c_code CDataType.float = pos 7
c_code CDataType.double = pos 8
c_code CDataType.bit = negsuc 6
c_code CDataType.date = pos 91
c_code CDataType.time = pos 92
c_code CDataType.timestamp = pos 93
c_code CDataType.stinyint = negsuc 25
c_code CDataType.utinyint = negsuc 27
c_code CDataType.sbigint = negsuc 24
c_code CDataType.ubigint = negsuc 26
c_code CDataType.binary = negsuc 1
c_code CDataType.numeric = pos 2
c_code CDataType.default = pos 99
c_code (CDataType.unlisted n) = n

-- static_cast<CDataType>
unfoldable pub c_type_of : ℤ → CDataType
c_type_of n =
    if eq_ℤ n (pos 1)
    then CDataType.char
    else if eq_ℤ n (negsuc 7)
    then CDataType.wchar
    else if eq_ℤ n (negsuc 14)
    then CDataType.sshort
    else if eq_ℤ n (negsuc 16)
    then CDataType.ushort
    else if eq_ℤ n (negsuc 15)
    then CDataType.slong
    else if eq_ℤ n (negsuc 17)
    then CDataType.ulong
    else if eq_ℤ n (pos 7)
    then CDataType.float
    else if eq_ℤ n (pos 8)
    then CDataType.double
    else if eq_ℤ n (negsuc 6)
    then CDataType.bit
    else if eq_ℤ n (pos 91)
    then CDataType.date
    else if eq_ℤ n (pos 92)
    then CDataType.time
    else if eq_ℤ n (pos 93)
    then CDataType.timestamp
    else if eq_ℤ n (negsuc 25)
    then CDataType.stinyint
    else if eq_ℤ n (negsuc 27)
    then CDataType.utinyint
    else if eq_ℤ n (negsuc 24)
    then CDataType.sbigint
    else if eq_ℤ n (negsuc 26)
    then CDataType.ubigint
    else if eq_ℤ n (negsuc 1)
    then CDataType.binary
    else if eq_ℤ n (pos 2)
    then CDataType.numeric
    else if eq_ℤ n (pos 99)
    then CDataType.default
    else CDataType.unlisted n
