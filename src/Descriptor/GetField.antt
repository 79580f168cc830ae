-- ===== src/Descriptor/GetField.antt =====
-- `GetHeaderField` and `GetField` of odbc_impl/ODBCDescriptor.cc, with `GetAttribute` of
-- AttributeUtils.h, which writes what they read.
use gizmosql_odbc_driver.Prelude.{
  ℕ, suc, Bool, true, false, Option, none, some, length, ltb, get_elem?, if◌then◌else◌,
}
use gizmosql_odbc_driver.Prelude.Int.{ℤ, pos, to_size}
use gizmosql_odbc_driver.Exceptions.{
  Exception, driver_exception, Outcome, returns, throws, faults, ◌>>=◌,
}
use gizmosql_odbc_driver.Diagnostics.{Diagnostics}
use gizmosql_odbc_driver.Attribute
use gizmosql_odbc_driver.Attribute.{Written}
use gizmosql_odbc_driver.Attribute.StringAttribute.{get_string_attribute}
use gizmosql_odbc_driver.Descriptor.{Descriptor, invalid_field}
use gizmosql_odbc_driver.Descriptor.Record.{DescField, is_header, DescriptorRecord, Bytes}
use gizmosql_odbc_driver.Descriptor.SetField.{is_zero}

-- An attribute with the type that `GetAttribute` is instantiated at: SQLSMALLINT, SQLINTEGER,
-- SQLLEN, SQLULEN, a pointer, or a text for `GetStringAttribute`.
pub data Value : Type 0 where
  smallint : ℤ → Value
  integer : ℤ → Value
  len : ℤ → Value
  ulen : ℕ → Value
  pointer : ℕ → Value
  text : Bytes → Value

-- `sizeof(T)`, on a platform with pointers of 8 bytes.
abbrev pub size_of : Value → ℕ
size_of (smallint z) = 2
size_of (integer z) = 4
size_of (len z) = 8
size_of (ulen n) = 8
size_of (pointer a) = 8
size_of (text s) = length s

-- What a call writes behind `output` and behind `outputLenPtr`.
pub record Answer : Type 0 where
  pub output : Option Value
  pub output_len : Option ℕ

abbrev pub when {ℓ} : {A : Type ℓ} → Bool → A → Option A
when true a = some a
when false a = none

unfoldable pub get_attribute : Value → Bool → Bool → Answer
get_attribute value output output_len = record {
  output = when output value;
  output_len = when output_len (size_of value);
}

-- SQL_DESC_ALLOC_USER is 2 and SQL_DESC_ALLOC_AUTO 1.
unfoldable pub get_alloc_type : Descriptor → ℤ
get_alloc_type d = elim d.owning_connection [ some c ↦ pos 2 | none ↦ pos 1 ]

unfoldable pub get_header_field : Descriptor → DescField → Outcome Value
unfolding get_alloc_type
get_header_field d DescField.alloc_type = returns (smallint (get_alloc_type d))
get_header_field d DescField.array_size = returns (ulen d.array_size)
get_header_field d DescField.array_status_ptr = returns (pointer d.array_status_ptr)
get_header_field d DescField.bind_offset_ptr = returns (pointer d.bind_offset_ptr)
get_header_field d DescField.bind_type = returns (integer d.bind_type)
get_header_field d DescField.rows_processed_ptr = returns (pointer d.rows_processed_ptr)
get_header_field d DescField.count = returns (smallint d.highest_one_based_bound_record)
get_header_field d _ = throws invalid_field

-- The member that the switch over the record fields takes, with its type.
unfoldable pub attribute_of : DescriptorRecord → DescField → Outcome Value
attribute_of r DescField.base_column_name = returns (text r.base_column_name)
attribute_of r DescField.base_table_name = returns (text r.base_table_name)
attribute_of r DescField.catalog_name = returns (text r.catalog_name)
attribute_of r DescField.label = returns (text r.label)
attribute_of r DescField.literal_prefix = returns (text r.literal_prefix)
attribute_of r DescField.literal_suffix = returns (text r.literal_suffix)
attribute_of r DescField.local_type_name = returns (text r.local_type_name)
attribute_of r DescField.name = returns (text r.name)
attribute_of r DescField.schema_name = returns (text r.schema_name)
attribute_of r DescField.table_name = returns (text r.table_name)
attribute_of r DescField.type_name = returns (text r.type_name)
attribute_of r DescField.data_ptr = returns (pointer r.data_ptr)
attribute_of r DescField.indicator_ptr = returns (pointer r.indicator_ptr)
attribute_of r DescField.octet_length_ptr = returns (pointer r.indicator_ptr)
attribute_of r DescField.length = returns (ulen r.length)
attribute_of r DescField.octet_length = returns (len r.octet_length)
attribute_of r DescField.auto_unique_value = returns (integer r.auto_unique_value)
attribute_of r DescField.case_sensitive = returns (integer r.case_sensitive)
attribute_of r DescField.datetime_interval_precision =
    returns (integer r.datetime_interval_precision)
attribute_of r DescField.num_prec_radix = returns (integer r.num_prec_radix)
attribute_of r DescField.concise_type = returns (smallint r.concise_type)
attribute_of r DescField.datetime_interval_code = returns (smallint r.datetime_interval_code)
attribute_of r DescField.display_size = returns (len r.display_size)
attribute_of r DescField.fixed_prec_scale = returns (smallint r.fixed_prec_scale)
attribute_of r DescField.nullable = returns (smallint r.nullable)
attribute_of r DescField.parameter_type = returns (smallint r.param_type)
attribute_of r DescField.precision = returns (smallint r.precision)
attribute_of r DescField.rowver = returns (smallint r.row_ver)
attribute_of r DescField.scale = returns (smallint r.scale)
attribute_of r DescField.searchable = returns (smallint r.searchable)
attribute_of r DescField.type = returns (smallint r.type)
attribute_of r DescField.unnamed = returns (smallint r.unnamed)
attribute_of r DescField.unsigned = returns (smallint r.unsigned)
attribute_of r DescField.updatable = returns (smallint r.updatable)
attribute_of r _ = throws invalid_field

abbrev pub no_record : Exception
no_record = driver_exception "Invalid descriptor index" "07009"

-- `value` as memory of `output_size` bytes or a null pointer, whether `outputLength` is not null,
-- and whether the text is wanted in SQLWCHAR.
pub record Target : Type 0 where
  pub output : Option Bytes
  pub output_size : ℤ
  pub output_len : Bool
  pub is_unicode : Bool

-- What is written: a value of one size, or a text with its length and the answer's code.
pub data Reply : Type 0 where
  fixed : Answer → Reply
  string : Written → Reply

abbrev pub is_given {ℓ} : {A : Type ℓ} → Option A → Bool
is_given none = false
is_given (some a) = true

module _ (wchar_size : ℕ) (utf8_to_wcs : Bytes → Bytes) where
  abbrev pub string_reply : Diagnostics × Written → Outcome (Diagnostics × Reply)
  string_reply (d, w) = returns (d, string w)

  -- `GetStringAttribute` for a text, whose lengths are of SQLINTEGER, and else `GetAttribute`.
  unfoldable pub reply_with : Value → Target → Diagnostics → Outcome (Diagnostics × Reply)
  unfolding get_string_attribute get_attribute
  reply_with (text s) t d =
      get_string_attribute wchar_size utf8_to_wcs t.is_unicode Attribute.integer s t.output
        t.output_size d
      >>= string_reply
  reply_with v t d = returns (d, fixed (get_attribute v (is_given t.output) t.output_len))

  -- The switch over the record fields.
  unfoldable pub get_record_field :
      DescriptorRecord → DescField → Target → Diagnostics → Outcome (Diagnostics × Reply)
  unfolding attribute_of reply_with
  get_record_field r field t d = attribute_of r field >>= λ v. reply_with v t d

  abbrev pub read_at :
      Option DescriptorRecord → DescField → Target → Diagnostics → Outcome (Diagnostics × Reply)
  read_at none field t d = faults
  read_at (some r) field t d = get_record_field r field t d

  -- `m_records[recordNumber - 1]`
  abbrev pub get_numbered :
      Descriptor → ℤ → DescField → Target → Diagnostics → Outcome (Diagnostics × Reply)
  get_numbered d (pos (suc i)) field t ds = read_at (get_elem? d.records i) field t ds
  get_numbered d _ field t ds = faults

  abbrev pub get_in_range :
      Descriptor → ℤ → DescField → Target → Diagnostics → Outcome (Diagnostics × Reply)
  get_in_range d number field t ds =
      if ltb (length d.records) (to_size number)
      then throws no_record
      else get_numbered d number field t ds

  abbrev pub get_checked :
      Descriptor → ℤ → DescField → Target → Diagnostics → Outcome (Diagnostics × Reply)
  get_checked d number field t ds =
      if is_zero number
      then throws (driver_exception "Bookmarks are unsupported." "07009")
      else get_in_range d number field t ds

  -- Header fields are handled before the record number is checked.
  unfoldable pub get_field :
      Descriptor → ℤ → DescField → Target → Diagnostics → Outcome (Diagnostics × Reply)
  unfolding get_header_field get_record_field
  get_field d number field t ds =
      if is_header field
      then get_header_field d field >>= (λ v. reply_with v t ds)
      else get_checked d number field t ds
