-- ===== src/Descriptor/Metadata.antt =====
-- `PopulateFromResultSetMetadata` of odbc_impl/ODBCDescriptor.cc, over the columns that
-- spi/result_set_metadata.h describes, and `GetSqlTypeForODBCVersion` of odbc_impl/TypeUtilities.h.
use gizmosql_odbc_driver.Prelude.{
  ℕ, ◌+◌, Bool, true, false, ◌||◌, List, [], map, length, if◌then◌else◌,
}
use gizmosql_odbc_driver.Prelude.Int.{ℤ, pos, to_signed, eq_ℤ}
use gizmosql_odbc_driver.Descriptor.{Descriptor}
use gizmosql_odbc_driver.Descriptor.Record.{DescriptorRecord, Bytes}

-- What a `ResultSetMetadata` answers for one column. The enumerations are their ODBC codes.
pub record Column : Type 0 where
  pub base_column_name : Bytes
  pub base_table_name : Bytes
  pub catalog_name : Bytes
  pub column_label : Bytes
  pub literal_prefix : Bytes
  pub literal_suffix : Bytes
  pub local_type_name : Bytes
  pub name : Bytes
  pub schema_name : Bytes
  pub table_name : Bytes
  pub type_name : Bytes
  pub concise_type : ℕ
  pub data_type : ℕ
  pub column_display_size : ℕ
  pub octet_length : ℕ
  pub length : ℕ
  pub num_prec_radix : ℕ
  pub precision : ℕ
  pub scale : ℕ
  pub is_auto_unique : Bool
  pub is_case_sensitive : Bool
  pub is_fixed_prec_scale : Bool
  pub is_unsigned : Bool
  pub nullable : ℤ
  pub searchable : ℤ
  pub updatable : ℤ

-- SQL_DATE is 9, SQL_TIME 10 and SQL_TIMESTAMP 11; the SQL_TYPE_ ones are 91, 92 and 93.
unfoldable pub get_sql_type_for_odbc_version : ℤ → Bool → ℤ
get_sql_type_for_odbc_version type is2x =
    if eq_ℤ type (pos 9) || eq_ℤ type (pos 91)
    then (if is2x then pos 9 else pos 91)
    else if eq_ℤ type (pos 10) || eq_ℤ type (pos 92)
    then (if is2x then pos 10 else pos 92)
    else if eq_ℤ type (pos 11) || eq_ℤ type (pos 93)
    then (if is2x then pos 11 else pos 93)
    else type

-- SQL_TRUE and SQL_FALSE
abbrev truth : Bool → ℤ
truth true = pos 1
truth false = pos 0

abbrev is_empty : Bytes → Bool
is_empty [] = true
is_empty _ = false

-- A new record, filled from the column. An assigned uint16_t or size_t is cut to the field's type.
unfoldable pub record_of : Bool → Column → DescriptorRecord
unfolding get_sql_type_for_odbc_version
record_of is2x c = record {
  base_column_name = c.base_column_name;
  base_table_name = c.base_table_name;
  catalog_name = c.catalog_name;
  label = c.column_label;
  literal_prefix = c.literal_prefix;
  literal_suffix = c.literal_suffix;
  local_type_name = c.local_type_name;
  name = c.name;
  schema_name = c.schema_name;
  table_name = c.table_name;
  type_name = c.type_name;
  data_ptr = 0;
  indicator_ptr = 0;
  display_size = to_signed 64 c.column_display_size;
  octet_length = to_signed 64 c.octet_length;
  length = c.length;
  auto_unique_value = truth c.is_auto_unique;
  case_sensitive = truth c.is_case_sensitive;
  datetime_interval_precision = pos 0;
  num_prec_radix = to_signed 32 c.num_prec_radix;
  concise_type = get_sql_type_for_odbc_version (to_signed 16 c.concise_type) is2x;
  datetime_interval_code = pos 0;
  fixed_prec_scale = truth c.is_fixed_prec_scale;
  nullable = c.nullable;
  param_type = pos 1;
  precision = to_signed 16 c.precision;
  row_ver = pos 0;
  scale = to_signed 16 c.scale;
  searchable = c.searchable;
  type = get_sql_type_for_odbc_version (to_signed 16 c.data_type) is2x;
  unnamed = truth (is_empty c.name);
  unsigned = truth c.is_unsigned;
  updatable = c.updatable;
  is_bound = false;
}

unfoldable pub populate_from_result_set_metadata : Descriptor → List Column → Descriptor
unfolding record_of
populate_from_result_set_metadata d columns = record d {
  records = map (record_of d.is2x_connection) columns;
  highest_one_based_bound_record =
      to_signed 16 (length (map (record_of d.is2x_connection) columns) + 1);
}
