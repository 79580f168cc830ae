-- ===== src/Types/Arrow.antt =====
-- Arrow types and C types, flight_sql/utils.cc: which conversion a bound column needs.
use gizmosql_odbc_driver.Prelude.{String, Bool, true, false, not, ◌&&◌, ◌||◌}
use gizmosql_odbc_driver.Prelude.Int.{ℤ}
use gizmosql_odbc_driver.Prelude.Text.{int_text, ◌+++◌}
use gizmosql_odbc_driver.Exceptions.{Result, ok, err, driver_exception}
use gizmosql_odbc_driver.Types.{ArrowType, CDataType, c_code}
use gizmosql_odbc_driver.Types.Conversion.{get_default_c_char_type}

-- The enumerators that the switches below compare with.
abbrev pub is_char : CDataType → Bool
is_char CDataType.char = true
is_char _ = false

abbrev pub is_wchar : CDataType → Bool
is_wchar CDataType.wchar = true
is_wchar _ = false

abbrev pub is_sshort : CDataType → Bool
is_sshort CDataType.sshort = true
is_sshort _ = false

abbrev pub is_ushort : CDataType → Bool
is_ushort CDataType.ushort = true
is_ushort _ = false

abbrev pub is_slong : CDataType → Bool
is_slong CDataType.slong = true
is_slong _ = false

abbrev pub is_ulong : CDataType → Bool
is_ulong CDataType.ulong = true
is_ulong _ = false

abbrev pub is_float : CDataType → Bool
is_float CDataType.float = true
is_float _ = false

abbrev pub is_double : CDataType → Bool
is_double CDataType.double = true
is_double _ = false

abbrev pub is_bit : CDataType → Bool
is_bit CDataType.bit = true
is_bit _ = false

abbrev pub is_date : CDataType → Bool
is_date CDataType.date = true
is_date _ = false

abbrev pub is_time : CDataType → Bool
is_time CDataType.time = true
is_time _ = false

abbrev pub is_timestamp : CDataType → Bool
is_timestamp CDataType.timestamp = true
is_timestamp _ = false

abbrev pub is_stinyint : CDataType → Bool
is_stinyint CDataType.stinyint = true
is_stinyint _ = false

abbrev pub is_utinyint : CDataType → Bool
is_utinyint CDataType.utinyint = true
is_utinyint _ = false

abbrev pub is_sbigint : CDataType → Bool
is_sbigint CDataType.sbigint = true
is_sbigint _ = false

abbrev pub is_ubigint : CDataType → Bool
is_ubigint CDataType.ubigint = true
is_ubigint _ = false

abbrev pub is_binary : CDataType → Bool
is_binary CDataType.binary = true
is_binary _ = false

abbrev pub is_numeric : CDataType → Bool
is_numeric CDataType.numeric = true
is_numeric _ = false

abbrev pub is_character : CDataType → Bool
is_character c = is_char c || is_wchar c

unfoldable pub is_complex_type : ArrowType → Bool
is_complex_type ArrowType.list = true
is_complex_type ArrowType.large_list = true
is_complex_type ArrowType.fixed_size_list = true
is_complex_type ArrowType.map = true
is_complex_type ArrowType.struct = true
is_complex_type _ = false

unfoldable pub need_array_conversion : ArrowType → CDataType → Result Bool
need_array_conversion ArrowType.date32 c = ok (not (is_date c))
need_array_conversion ArrowType.date64 c = ok (not (is_date c))
need_array_conversion ArrowType.time32 c = ok (not (is_time c))
need_array_conversion ArrowType.time64 c = ok (not (is_time c))
need_array_conversion ArrowType.timestamp c = ok (not (is_timestamp c))
need_array_conversion ArrowType.string c = ok (not (is_char c) && not (is_wchar c))
need_array_conversion ArrowType.int16 c = ok (not (is_sshort c))
need_array_conversion ArrowType.uint16 c = ok (not (is_ushort c))
need_array_conversion ArrowType.int32 c = ok (not (is_slong c))
need_array_conversion ArrowType.uint32 c = ok (not (is_ulong c))
need_array_conversion ArrowType.float c = ok (not (is_float c))
need_array_conversion ArrowType.double c = ok (not (is_double c))
need_array_conversion ArrowType.bool c = ok (not (is_bit c))
need_array_conversion ArrowType.int8 c = ok (not (is_stinyint c))
need_array_conversion ArrowType.uint8 c = ok (not (is_utinyint c))
need_array_conversion ArrowType.int64 c = ok (not (is_sbigint c))
need_array_conversion ArrowType.uint64 c = ok (not (is_ubigint c))
need_array_conversion ArrowType.binary c = ok (not (is_binary c))
need_array_conversion ArrowType.decimal128 c = ok (not (is_numeric c))
need_array_conversion ArrowType.list c = ok (is_char c || is_wchar c)
need_array_conversion ArrowType.large_list c = ok (is_char c || is_wchar c)
need_array_conversion ArrowType.fixed_size_list c = ok (is_char c || is_wchar c)
need_array_conversion ArrowType.map c = ok (is_char c || is_wchar c)
need_array_conversion ArrowType.struct c = ok (is_char c || is_wchar c)
need_array_conversion _ c = err (driver_exception "Invalid conversion" "HY000")

unfoldable pub convert_c_to_arrow_type : CDataType → Result ArrowType
convert_c_to_arrow_type CDataType.char = ok ArrowType.string
convert_c_to_arrow_type CDataType.wchar = ok ArrowType.string
convert_c_to_arrow_type CDataType.sshort = ok ArrowType.int16
convert_c_to_arrow_type CDataType.ushort = ok ArrowType.uint16
convert_c_to_arrow_type CDataType.slong = ok ArrowType.int32
convert_c_to_arrow_type CDataType.ulong = ok ArrowType.uint32
convert_c_to_arrow_type CDataType.float = ok ArrowType.float
convert_c_to_arrow_type CDataType.double = ok ArrowType.double
convert_c_to_arrow_type CDataType.bit = ok ArrowType.bool
convert_c_to_arrow_type CDataType.stinyint = ok ArrowType.int8
convert_c_to_arrow_type CDataType.utinyint = ok ArrowType.uint8
convert_c_to_arrow_type CDataType.sbigint = ok ArrowType.int64
convert_c_to_arrow_type CDataType.ubigint = ok ArrowType.uint64
convert_c_to_arrow_type CDataType.binary = ok ArrowType.binary
convert_c_to_arrow_type CDataType.numeric = ok ArrowType.decimal128
convert_c_to_arrow_type CDataType.timestamp = ok ArrowType.timestamp
convert_c_to_arrow_type CDataType.time = ok ArrowType.time64
convert_c_to_arrow_type CDataType.date = ok ArrowType.date64
convert_c_to_arrow_type c =
    err (driver_exception ("Invalid target type: " +++ int_text (c_code c)) "HY000")

-- The numbers of the enumerators of arrow::Type, which error texts name, are the library's.
module _ (type_number : ArrowType → ℤ) where
  abbrev pub invalid_type_id : ArrowType → String
  invalid_type_id t = "Invalid type id: " +++ int_text (type_number t)

  unfoldable pub convert_arrow_type_to_c : ArrowType → Bool → Result CDataType
  convert_arrow_type_to_c ArrowType.string wide = ok (get_default_c_char_type wide)
  convert_arrow_type_to_c ArrowType.int16 wide = ok CDataType.sshort
  convert_arrow_type_to_c ArrowType.uint16 wide = ok CDataType.ushort
  convert_arrow_type_to_c ArrowType.int32 wide = ok CDataType.slong
  convert_arrow_type_to_c ArrowType.uint32 wide = ok CDataType.ulong
  convert_arrow_type_to_c ArrowType.float wide = ok CDataType.float
  convert_arrow_type_to_c ArrowType.double wide = ok CDataType.double
  convert_arrow_type_to_c ArrowType.bool wide = ok CDataType.bit
  convert_arrow_type_to_c ArrowType.int8 wide = ok CDataType.stinyint
  convert_arrow_type_to_c ArrowType.uint8 wide = ok CDataType.utinyint
  convert_arrow_type_to_c ArrowType.int64 wide = ok CDataType.sbigint
  convert_arrow_type_to_c ArrowType.uint64 wide = ok CDataType.ubigint
  convert_arrow_type_to_c ArrowType.binary wide = ok CDataType.binary
  convert_arrow_type_to_c ArrowType.decimal128 wide = ok CDataType.numeric
  convert_arrow_type_to_c ArrowType.date64 wide = ok CDataType.date
  convert_arrow_type_to_c ArrowType.date32 wide = ok CDataType.date
  convert_arrow_type_to_c ArrowType.time64 wide = ok CDataType.time
  convert_arrow_type_to_c ArrowType.time32 wide = ok CDataType.time
  convert_arrow_type_to_c ArrowType.timestamp wide = ok CDataType.timestamp
  convert_arrow_type_to_c t wide = err (driver_exception (invalid_type_id t) "HY000")

  -- The type instance is the enumerator's own, with the parameters that utils.cc gives: precision
  -- 38 and scale 0 for DECIMAL128, microseconds for TIME64, seconds for TIMESTAMP.
  unfoldable pub get_default_data_type_for_type_id : ArrowType → Result ArrowType
  get_default_data_type_for_type_id ArrowType.string = ok ArrowType.string
  get_default_data_type_for_type_id ArrowType.int16 = ok ArrowType.int16
  get_default_data_type_for_type_id ArrowType.uint16 = ok ArrowType.uint16
  get_default_data_type_for_type_id ArrowType.int32 = ok ArrowType.int32
  get_default_data_type_for_type_id ArrowType.uint32 = ok ArrowType.uint32
  get_default_data_type_for_type_id ArrowType.float = ok ArrowType.float
  get_default_data_type_for_type_id ArrowType.double = ok ArrowType.double
  get_default_data_type_for_type_id ArrowType.bool = ok ArrowType.bool
  get_default_data_type_for_type_id ArrowType.int8 = ok ArrowType.int8
  get_default_data_type_for_type_id ArrowType.uint8 = ok ArrowType.uint8
  get_default_data_type_for_type_id ArrowType.int64 = ok ArrowType.int64
  get_default_data_type_for_type_id ArrowType.uint64 = ok ArrowType.uint64
  get_default_data_type_for_type_id ArrowType.binary = ok ArrowType.binary
  get_default_data_type_for_type_id ArrowType.decimal128 = ok ArrowType.decimal128
  get_default_data_type_for_type_id ArrowType.date64 = ok ArrowType.date64
  get_default_data_type_for_type_id ArrowType.time64 = ok ArrowType.time64
  get_default_data_type_for_type_id ArrowType.timestamp = ok ArrowType.timestamp
  get_default_data_type_for_type_id t = err (driver_exception (invalid_type_id t) "HY000")
