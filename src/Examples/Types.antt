-- ===== src/Examples/Types.antt =====
-- Runs of the type tables of flight_sql/utils.cc.
use gizmosql_odbc_driver.Prelude.{String, ◌≡◌, refl, false, some}
use gizmosql_odbc_driver.Prelude.Int.{ℤ, pos, negsuc}
use gizmosql_odbc_driver.Exceptions.{ok}
use gizmosql_odbc_driver.Types.{ArrowType, SqlDataType, CDataType, sql_code, c_code}
use gizmosql_odbc_driver.Types.Conversion.{
  convert_sql_data_type_from_v3_to_v2, convert_c_data_type_from_v2_to_v3, get_non_concise_data_type,
  get_sql_date_time_sub_code,
}
use gizmosql_odbc_driver.Types.Names.{get_type_name_from_sql_data_type}
use gizmosql_odbc_driver.Types.Sizes.{get_column_size, get_buffer_length}
use gizmosql_odbc_driver.Types.Arrow.{
  need_array_conversion, convert_c_to_arrow_type, convert_arrow_type_to_c,
  get_default_data_type_for_type_id,
}
use gizmosql_odbc_driver.Types.Laws.{
  concise_type, concise_type-get_non_concise_data_type, get_type_name-convert,
  convert_c_data_type_from_v2_to_v3_lem, odbc3_c_type, get_column_size-eq-get_buffer_length,
  default_binding,
}

-- SQL_TYPE_TIMESTAMP is SQL_TIMESTAMP, 11, for an application of ODBC 2.
old_timestamp : convert_sql_data_type_from_v3_to_v2 (sql_code SqlDataType.type_timestamp) ≡ pos 11
unfolding convert_sql_data_type_from_v3_to_v2 sql_code
old_timestamp = refl

concise_type-get_non_concise_data_type_example :
    concise_type
      (get_non_concise_data_type SqlDataType.interval_day)
      (get_sql_date_time_sub_code SqlDataType.interval_day)
    ≡ some SqlDataType.interval_day
concise_type-get_non_concise_data_type_example =
    concise_type-get_non_concise_data_type SqlDataType.interval_day

get_type_name-convert_example :
    (get_type_name_from_sql_data_type
        (convert_sql_data_type_from_v3_to_v2 (sql_code SqlDataType.type_date))
      ≡ get_type_name_from_sql_data_type (sql_code SqlDataType.type_date))
    × ((name : String) × (get_type_name_from_sql_data_type (sql_code SqlDataType.type_date)
          ≡ ok name))
get_type_name-convert_example = get_type_name-convert SqlDataType.type_date

convert_c_data_type_from_v2_to_v3_lem_example :
    c_code (convert_c_data_type_from_v2_to_v3 (pos 11)) ≡ odbc3_c_type (pos 11)
convert_c_data_type_from_v2_to_v3_lem_example = convert_c_data_type_from_v2_to_v3_lem (pos 11)

-- SQL_C_LONG becomes SQL_C_SLONG, and SQL_C_TIMESTAMP SQL_C_TYPE_TIMESTAMP.
old_c_types : (odbc3_c_type (pos 4) ≡ negsuc 15) × (odbc3_c_type (pos 11) ≡ pos 93)
unfolding odbc3_c_type
old_c_types = (refl, refl)

get_column_size-eq-get_buffer_length_example :
    get_column_size SqlDataType.wvarchar 2 (some (pos 20))
    ≡ get_buffer_length SqlDataType.wvarchar 2 (some (pos 20))
get_column_size-eq-get_buffer_length_example =
    get_column_size-eq-get_buffer_length SqlDataType.wvarchar 2 (some (pos 20))

-- Any numbering of the Arrow types will do.
abbrev type_number : ArrowType → ℤ
type_number t = pos 7

default_binding_example :
    (need_array_conversion ArrowType.int64 CDataType.sbigint ≡ ok false)
    × ((u : ArrowType) × (convert_c_to_arrow_type CDataType.sbigint ≡ ok u)
        × (convert_arrow_type_to_c type_number u false ≡ ok CDataType.sbigint)
        × (get_default_data_type_for_type_id type_number u ≡ ok u))
default_binding_example =
    default_binding type_number ArrowType.int64 false CDataType.sbigint
      (unfold convert_arrow_type_to_c in refl)
