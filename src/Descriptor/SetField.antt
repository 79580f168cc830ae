-- ===== src/Descriptor/SetField.antt =====
-- `SetField` of odbc_impl/ODBCDescriptor.cc.
use gizmosql_odbc_driver.Prelude.{
  ℕ, zero, suc, ◌%◌, ◌^◌, Bool, true, false, not, length, set, ltb, if◌then◌else◌,
}
use gizmosql_odbc_driver.Prelude.Int.{ℤ, pos, to_signed, to_size}
use gizmosql_odbc_driver.Exceptions.{Exception, driver_exception, Outcome, returns, throws, faults}
use gizmosql_odbc_driver.Descriptor.{
  Descriptor, read_only, set_header_field, set_data_ptr_on_record, at_record,
}
use gizmosql_odbc_driver.Descriptor.Record.{DescField, is_header, DescriptorRecord, Bytes}

abbrev pub store : Descriptor → ℕ → DescriptorRecord → Outcome Descriptor
store d i r = returns (record d { records = set d.records i r; has_bindings_changed = true })

-- A field whose change unbinds the column.
abbrev store_unbound : Descriptor → ℕ → DescriptorRecord → Outcome Descriptor
store_unbound d i r = store d i (record r { is_bound = false })

abbrev pub is_read_only : DescField → Bool
is_read_only DescField.auto_unique_value = true
is_read_only DescField.base_column_name = true
is_read_only DescField.base_table_name = true
is_read_only DescField.case_sensitive = true
is_read_only DescField.catalog_name = true
is_read_only DescField.display_size = true
is_read_only DescField.fixed_prec_scale = true
is_read_only DescField.label = true
is_read_only DescField.literal_prefix = true
is_read_only DescField.literal_suffix = true
is_read_only DescField.local_type_name = true
is_read_only DescField.nullable = true
is_read_only DescField.num_prec_radix = true
is_read_only DescField.rowver = true
is_read_only DescField.schema_name = true
is_read_only DescField.searchable = true
is_read_only DescField.table_name = true
is_read_only DescField.type_name = true
is_read_only DescField.unnamed = true
is_read_only DescField.unsigned = true
is_read_only DescField.updatable = true
is_read_only _ = false

abbrev read_only_field : Exception
read_only_field = driver_exception "Cannot modify read-only field." "HY092"

-- The switch over the record fields, at the record of position `i`. `text` is what
-- `SetAttributeUTF8` reads from the application's memory.
unfoldable pub set_record_field :
    Descriptor → ℕ → DescriptorRecord → DescField → ℕ → Bytes → Outcome Descriptor
unfolding set_data_ptr_on_record
set_record_field d i r DescField.concise_type value text =
    store_unbound d i (record r { concise_type = to_signed 16 value })
set_record_field d i r DescField.data_ptr value text = set_data_ptr_on_record d value (pos (suc i))
set_record_field d i r DescField.datetime_interval_code value text =
    store_unbound d i (record r { datetime_interval_code = to_signed 16 value })
set_record_field d i r DescField.datetime_interval_precision value text =
    store_unbound d i (record r { datetime_interval_precision = to_signed 32 value })
set_record_field d i r DescField.indicator_ptr value text =
    store d i (record r { indicator_ptr = value })
set_record_field d i r DescField.octet_length_ptr value text =
    store d i (record r { indicator_ptr = value })
set_record_field d i r DescField.length value text =
    store_unbound d i (record r { length = value % 2 ^ 64 })
set_record_field d i r DescField.name value text = store d i (record r { name = text })
set_record_field d i r DescField.octet_length value text =
    store_unbound d i (record r { octet_length = to_signed 64 value })
set_record_field d i r DescField.parameter_type value text =
    store_unbound d i (record r { param_type = to_signed 16 value })
set_record_field d i r DescField.precision value text =
    store_unbound d i (record r { precision = to_signed 16 value })
set_record_field d i r DescField.scale value text =
    store_unbound d i (record r { scale = to_signed 16 value })
set_record_field d i r DescField.type value text =
    store_unbound d i (record r { type = to_signed 16 value })
set_record_field d i r field value text =
    if is_read_only field
    then throws read_only_field
    else throws (driver_exception "Invalid descriptor field" "HY091")

-- The record number has been checked: it is at most the number of records.
abbrev pub set_numbered : Descriptor → ℤ → DescField → ℕ → Bytes → Outcome Descriptor
set_numbered d (pos (suc i)) field value text =
    at_record d i (λ r. set_record_field d i r field value text)
set_numbered d _ field value text = faults

abbrev pub is_zero : ℤ → Bool
is_zero (pos zero) = true
is_zero _ = false

abbrev pub bookmark : Outcome Descriptor
bookmark = throws (driver_exception "Bookmarks are unsupported." "07009")

abbrev pub bad_index : Outcome Descriptor
bad_index = throws (driver_exception "Invalid descriptor index" "HY009")

-- The checks of the record number, once the field is known to be no header field.
abbrev pub set_in_range : Descriptor → ℤ → DescField → ℕ → Bytes → Outcome Descriptor
set_in_range d number field value text =
    if ltb (length d.records) (to_size number)
    then bad_index
    else set_numbered d number field value text

abbrev pub set_checked : Descriptor → ℤ → DescField → ℕ → Bytes → Outcome Descriptor
set_checked d number field value text =
    if is_zero number then bookmark else set_in_range d number field value text

-- Header fields are handled before the record number is checked.
abbrev pub set_writable : Descriptor → ℤ → DescField → ℕ → Bytes → Outcome Descriptor
set_writable d number field value text =
    if is_header field
    then set_header_field d field value
    else set_checked d number field value text

unfoldable pub set_field : Descriptor → ℤ → DescField → ℕ → Bytes → Outcome Descriptor
unfolding set_record_field set_header_field
set_field d number field value text =
    if not d.is_writable then throws read_only else set_writable d number field value text
