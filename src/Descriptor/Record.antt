-- ===== src/Descriptor/Record.antt =====
-- `DescriptorRecord` of odbc_impl/ODBCDescriptor.h, and the descriptor fields of the ODBC headers
-- that ODBCDescriptor.cc names (`SQL_DESC_…`).
use gizmosql_odbc_driver.Prelude.{ℕ, Bool, true, false, List, []}
use gizmosql_odbc_driver.Prelude.Int.{ℤ, pos}

pub data DescField : Type 0 where
  -- header fields
  alloc_type array_size array_status_ptr bind_offset_ptr bind_type : DescField
  rows_processed_ptr count : DescField
  -- record fields
  auto_unique_value base_column_name base_table_name case_sensitive catalog_name : DescField
  display_size fixed_prec_scale label literal_prefix literal_suffix local_type_name : DescField
  nullable num_prec_radix rowver schema_name searchable table_name type_name : DescField
  unnamed unsigned updatable : DescField
  concise_type data_ptr datetime_interval_code datetime_interval_precision : DescField
  indicator_ptr octet_length_ptr length name octet_length parameter_type : DescField
  precision scale type : DescField
  -- any other identifier
  other : DescField

abbrev pub is_header : DescField → Bool
is_header DescField.alloc_type = true
is_header DescField.array_size = true
is_header DescField.array_status_ptr = true
is_header DescField.bind_offset_ptr = true
is_header DescField.bind_type = true
is_header DescField.rows_processed_ptr = true
is_header DescField.count = true
is_header _ = false

abbrev pub Bytes : Type 0
Bytes = List ℕ

-- Pointers are addresses, and 0 is the null pointer.
pub record DescriptorRecord : Type 0 where
  pub base_column_name : Bytes
  pub base_table_name : Bytes
  pub catalog_name : Bytes
  pub label : Bytes
  pub literal_prefix : Bytes
  pub literal_suffix : Bytes
  pub local_type_name : Bytes
  pub name : Bytes
  pub schema_name : Bytes
  pub table_name : Bytes
  pub type_name : Bytes
  pub data_ptr : ℕ
  pub indicator_ptr : ℕ
  pub display_size : ℤ
  pub octet_length : ℤ
  pub length : ℕ
  pub auto_unique_value : ℤ
  pub case_sensitive : ℤ
  pub datetime_interval_precision : ℤ
  pub num_prec_radix : ℤ
  pub concise_type : ℤ
  pub datetime_interval_code : ℤ
  pub fixed_prec_scale : ℤ
  pub nullable : ℤ
  pub param_type : ℤ
  pub precision : ℤ
  pub row_ver : ℤ
  pub scale : ℤ
  pub searchable : ℤ
  pub type : ℤ
  pub unnamed : ℤ
  pub unsigned : ℤ
  pub updatable : ℤ
  pub is_bound : Bool

-- `DescriptorRecord()`: the default member initialisers, with the constants' values from the ODBC
-- headers (SQL_C_DEFAULT 99, SQL_NULLABLE_UNKNOWN 2, SQL_PARAM_INPUT 1, SQL_SEARCHABLE 3).
abbrev pub default_record : DescriptorRecord
default_record = record {
  base_column_name = [];
  base_table_name = [];
  catalog_name = [];
  label = [];
  literal_prefix = [];
  literal_suffix = [];
  local_type_name = [];
  name = [];
  schema_name = [];
  table_name = [];
  type_name = [];
  data_ptr = 0;
  indicator_ptr = 0;
  display_size = pos 0;
  octet_length = pos 0;
  length = 0;
  auto_unique_value = pos 0;
  case_sensitive = pos 1;
  datetime_interval_precision = pos 0;
  num_prec_radix = pos 0;
  concise_type = pos 99;
  datetime_interval_code = pos 0;
  fixed_prec_scale = pos 0;
  nullable = pos 2;
  param_type = pos 1;
  precision = pos 0;
  row_ver = pos 0;
  scale = pos 0;
  searchable = pos 3;
  type = pos 99;
  unnamed = pos 1;
  unsigned = pos 0;
  updatable = pos 0;
  is_bound = false;
}
