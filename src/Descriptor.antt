-- ===== src/Descriptor.antt =====
-- odbcabstraction/odbc_impl/ODBCDescriptor.cc: the operations of `ODBCDescriptor`.
pub mod Record
pub mod SetField
pub mod Highest
pub mod Bind
pub mod Covered
pub mod GetField
pub mod Metadata
pub mod ReadBack
use gizmosql_odbc_driver.Prelude.{
  ◌≡◌, ap, ℕ, zero, suc, ◌+◌, ◌-◌, ◌%◌, ◌^◌, Bool, true, false, not, ◌&&◌, ◌||◌, Option, none, some,
  List, [], ◌∷◌, ◌++◌, length, get_elem?, set, take, replicate, ltb, leb, ◌==◌, if◌then◌else◌,
}
use gizmosql_odbc_driver.Prelude.Int.{ℤ, pos, negsuc, to_signed, to_size, ltb_ℤ, leb_ℤ, eq_ℤ}
use gizmosql_odbc_driver.Exceptions.{
  Exception, driver_exception, standard, Outcome, returns, throws, faults,
}
use Record.{DescField, is_header, DescriptorRecord, default_record, Bytes}

-- Connections and statements are known by number. The constructor's diagnostics are those of
-- `Diagnostics`, and no operation below writes to them but the truncation warning of a string.
pub record Descriptor : Type 0 where
  pub registered_on_statements_as_apd : List ℕ
  pub registered_on_statements_as_ard : List ℕ
  pub records : List DescriptorRecord
  pub owning_connection : Option ℕ
  pub array_status_ptr : ℕ
  pub bind_offset_ptr : ℕ
  pub rows_processed_ptr : ℕ
  pub array_size : ℕ
  pub bind_type : ℤ
  pub highest_one_based_bound_record : ℤ
  pub is2x_connection : Bool
  pub is_app_descriptor : Bool
  pub is_writable : Bool
  pub has_bindings_changed : Bool

unfoldable pub init : Option ℕ → Bool → Bool → Bool → Descriptor
init connection is_app is_writable is2x = record {
  registered_on_statements_as_apd = [];
  registered_on_statements_as_ard = [];
  records = [];
  owning_connection = connection;
  array_status_ptr = 0;
  bind_offset_ptr = 0;
  rows_processed_ptr = 0;
  array_size = 1;
  bind_type = pos 0;
  highest_one_based_bound_record = pos 0;
  is2x_connection = is2x;
  is_app_descriptor = is_app;
  is_writable = is_writable;
  has_bindings_changed = true;
}

abbrev pub is_bound? : Option DescriptorRecord → Bool
is_bound? none = false
is_bound? (some r) = r.is_bound

abbrev pub bound_at : List DescriptorRecord → ℕ → Bool
bound_at records i = is_bound? (get_elem? records i)

-- The loop of `CalculateHighestBoundRecord`, with `i` records left to look at.
unfoldable pub highest_bound_from : List DescriptorRecord → ℕ → ℕ
highest_bound_from records zero = 0
highest_bound_from records (suc i) =
    let rest = highest_bound_from records i in if bound_at records i then suc i else rest

-- The result is a SQLSMALLINT.
unfoldable pub calculate_highest_bound_record : List DescriptorRecord → ℤ
unfolding highest_bound_from
calculate_highest_bound_record records = to_signed 16 (highest_bound_from records (length records))

-- `std::vector::resize` to a size that the vector can have.
unfoldable pub resize_to : List DescriptorRecord → ℕ → List DescriptorRecord
resize_to records n = take n records ++ replicate (n - length records) default_record

-- A negative size converts to one above `max_size`.
unfoldable pub resize : List DescriptorRecord → ℤ → Outcome (List DescriptorRecord)
unfolding resize_to
resize records (pos n) = returns (resize_to records n)
resize records (negsuc n) = throws (standard "vector::_M_default_append")

abbrev changed : Descriptor → Descriptor
changed d = record d { has_bindings_changed = true }

-- The case SQL_DESC_COUNT, after the vector was resized.
unfoldable pub set_count : Descriptor → ℤ → List DescriptorRecord → Descriptor
unfolding calculate_highest_bound_record
set_count d new_count records = record d {
  records = records;
  highest_one_based_bound_record =
      (if d.is_app_descriptor && leb_ℤ new_count d.highest_one_based_bound_record
        then calculate_highest_bound_record records
        else new_count);
  has_bindings_changed = true;
}

abbrev pub with_count : Descriptor → ℤ → Outcome (List DescriptorRecord) → Outcome Descriptor
with_count d n (returns records) = returns (set_count d n records)
with_count d n (throws e) = throws e
with_count d n faults = faults

abbrev pub invalid_field : Exception
invalid_field = driver_exception "Invalid descriptor field" "HY091"

abbrev pub read_only : Exception
read_only = driver_exception "Cannot modify read-only descriptor" "HY016"

-- The switch of `SetHeaderField`.
abbrev pub set_header_field_of : Descriptor → DescField → ℕ → Outcome Descriptor
set_header_field_of d DescField.array_size value =
    returns (changed (record d { array_size = value % 2 ^ 64 }))
set_header_field_of d DescField.array_status_ptr value =
    returns (changed (record d { array_status_ptr = value }))
set_header_field_of d DescField.bind_offset_ptr value =
    returns (changed (record d { bind_offset_ptr = value }))
set_header_field_of d DescField.bind_type value =
    returns (changed (record d { bind_type = to_signed 32 value }))
set_header_field_of d DescField.rows_processed_ptr value =
    returns (changed (record d { rows_processed_ptr = value }))
set_header_field_of d DescField.count value =
    with_count d (to_signed 16 value) (resize d.records (to_signed 16 value))
set_header_field_of d _ value = throws invalid_field

-- Only these two fields can be set on the IRD.
abbrev pub is_status_field : DescField → Bool
is_status_field DescField.array_status_ptr = true
is_status_field DescField.rows_processed_ptr = true
is_status_field _ = false

unfoldable pub set_header_field : Descriptor → DescField → ℕ → Outcome Descriptor
unfolding resize set_count
set_header_field d field value =
    if not d.is_writable && not (is_status_field field)
    then throws read_only
    else set_header_field_of d field value

-- The end of `SetDataPtrOnRecord`: the record at position `i`, number `i + 1`, is `r`.
unfoldable pub set_data_ptr_at : Descriptor → ℕ → DescriptorRecord → ℕ → Descriptor
unfolding calculate_highest_bound_record
set_data_ptr_at d i r data_ptr =
    let null = data_ptr == 0 in
    let number = to_signed 16 (suc i) in
    let records = set d.records i (record r { is_bound = not null; data_ptr = data_ptr }) in
    let highest = d.highest_one_based_bound_record in
    record d {
      records = records;
      highest_one_based_bound_record =
          (if ltb_ℤ highest number && not null
            then number
            else if eq_ℤ highest number && null
            then calculate_highest_bound_record records
            else highest);
      has_bindings_changed = true;
    }

abbrev pub with_record :
    Option DescriptorRecord → (DescriptorRecord → Outcome Descriptor) → Outcome Descriptor
with_record none f = faults
with_record (some r) f = f r

abbrev pub at_record : Descriptor → ℕ → (DescriptorRecord → Outcome Descriptor) → Outcome Descriptor
at_record d i f = with_record (get_elem? d.records i) f

pub at_record-some :
    (d : Descriptor) (i : ℕ) (f : DescriptorRecord → Outcome Descriptor) (r : DescriptorRecord)
    → get_elem? d.records i ≡ some r
    → at_record d i f ≡ f r
at_record-some d i f r h = ap (λ o. with_record o f) h

-- `m_records[recordNumber - 1]` is the caller's to check; outside the vector it is undefined.
unfoldable pub set_data_ptr_on_record : Descriptor → ℕ → ℤ → Outcome Descriptor
unfolding set_data_ptr_at
set_data_ptr_on_record d data_ptr (pos (suc i)) =
    at_record d i (λ r. returns (set_data_ptr_at d i r data_ptr))
set_data_ptr_on_record d data_ptr (pos zero) = faults
set_data_ptr_on_record d data_ptr (negsuc n) = faults

-- SQL_C_NUMERIC
abbrev pub c_numeric : ℤ
c_numeric = pos 2

unfoldable pub bind_record : DescriptorRecord → ℤ → ℤ → ℕ → DescriptorRecord
bind_record r c_type buffer_length indicator_ptr =
    let bound = record r {
      type = c_type;
      indicator_ptr = indicator_ptr;
      length = to_size buffer_length;
    } in
    if eq_ℤ c_type c_numeric then record bound { precision = pos 38; scale = pos 0 } else bound

-- The set of records grows to the supplied number.
unfoldable pub expand : Descriptor → ℤ → Outcome Descriptor
unfolding resize
expand d number =
    if ltb (length d.records) (to_size number)
    then elim (resize d.records number) [
      | returns records ↦ returns (record d { records = records })
      | throws e ↦ throws e
      | faults ↦ faults
    ]
    else returns d

abbrev pub bind_at : Descriptor → ℤ → ℤ → ℕ → ℤ → ℕ → Outcome Descriptor
bind_at d (pos (suc i)) c_type data_ptr buffer_length indicator_ptr = at_record d i λ r.
    set_data_ptr_on_record
      (record d { records = set d.records i (bind_record r c_type buffer_length indicator_ptr) })
      data_ptr (pos (suc i))
bind_at d _ c_type data_ptr buffer_length indicator_ptr = faults

unfoldable pub bind_col : Descriptor → ℤ → ℤ → ℕ → ℤ → ℕ → Outcome Descriptor
bind_col d number c_type data_ptr buffer_length indicator_ptr = elim (expand d number) [
  | returns e ↦ bind_at e number c_type data_ptr buffer_length indicator_ptr
  | throws e ↦ throws e
  | faults ↦ faults
]

-- `RegisterToStatement` and `DetachFromStatement`; `std::find` and `erase` take the first match.
unfoldable pub register_to_statement : Descriptor → ℕ → Bool → Descriptor
register_to_statement d statement true = record d {
  registered_on_statements_as_apd = d.registered_on_statements_as_apd ++ statement ∷ [];
}
register_to_statement d statement false = record d {
  registered_on_statements_as_ard = d.registered_on_statements_as_ard ++ statement ∷ [];
}

unfoldable pub erase : ℕ → List ℕ → List ℕ
erase a [] = []
erase a (x ∷ xs) = let rest = erase a xs in if x == a then xs else x ∷ rest

unfoldable pub detach_from_statement : Descriptor → ℕ → Bool → Descriptor
unfolding erase
detach_from_statement d statement true = record d {
  registered_on_statements_as_apd = erase statement d.registered_on_statements_as_apd;
}
detach_from_statement d statement false = record d {
  registered_on_statements_as_ard = erase statement d.registered_on_statements_as_ard;
}

-- SQLFreeStmt(SQL_UNBIND) of odbc_entry.cc: `GetRecords().clear()` and nothing else.
unfoldable pub clear_records : Descriptor → Descriptor
clear_records d = record d { records = [] }
