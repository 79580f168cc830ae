-- ===== src/Descriptor/ReadBack.antt =====
-- `GetField` after `SetField` of odbc_impl/ODBCDescriptor.cc.
use gizmosql_odbc_driver.Prelude.{
  ℕ, suc, ◌<◌, ◌%◌, ◌^◌, ◌≡◌, refl, ap, ◌∙◌, true, false, not, length, set, arith, ◌==◌, length-set,
  if◌then◌else◌, get_elem?, get_elem?-some, get_elem?-set_self, some, ge→ltb,
}
use gizmosql_odbc_driver.Prelude.Int.{pos, to_signed}
use gizmosql_odbc_driver.Exceptions.{returns, throws, ◌>>=◌, >>=-ext}
use gizmosql_odbc_driver.Diagnostics.{Diagnostics}
use gizmosql_odbc_driver.Descriptor.{
  Descriptor, read_only, at_record-some, set_header_field, set_data_ptr_on_record, set_data_ptr_at,
}
use gizmosql_odbc_driver.Descriptor.Record.{DescField, is_header, DescriptorRecord, Bytes}
use gizmosql_odbc_driver.Descriptor.SetField.{
  set_field, set_record_field, set_writable, bad_index, set_numbered, set_checked,
}
use gizmosql_odbc_driver.Descriptor.GetField.{
  Value, smallint, integer, len, ulen, pointer, text, Target, get_field, get_record_field,
  get_in_range, get_header_field, read_at, no_record, attribute_of, reply_with,
}

-- The fields of a record that an application sets.
pub data Settable : Type 0 where
  concise_type data_ptr datetime_interval_code datetime_interval_precision : Settable
  indicator_ptr octet_length_ptr desc_length name octet_length parameter_type : Settable
  precision scale type : Settable

abbrev pub field_of : Settable → DescField
field_of Settable.concise_type = DescField.concise_type
field_of Settable.data_ptr = DescField.data_ptr
field_of Settable.datetime_interval_code = DescField.datetime_interval_code
field_of Settable.datetime_interval_precision = DescField.datetime_interval_precision
field_of Settable.indicator_ptr = DescField.indicator_ptr
field_of Settable.octet_length_ptr = DescField.octet_length_ptr
field_of Settable.desc_length = DescField.length
field_of Settable.name = DescField.name
field_of Settable.octet_length = DescField.octet_length
field_of Settable.parameter_type = DescField.parameter_type
field_of Settable.precision = DescField.precision
field_of Settable.scale = DescField.scale
field_of Settable.type = DescField.type

-- The argument as a value of the field's own type.
abbrev pub value_for : Settable → ℕ → Bytes → Value
value_for Settable.concise_type v t = smallint (to_signed 16 v)
value_for Settable.data_ptr v t = pointer v
value_for Settable.datetime_interval_code v t = smallint (to_signed 16 v)
value_for Settable.datetime_interval_precision v t = integer (to_signed 32 v)
value_for Settable.indicator_ptr v t = pointer v
value_for Settable.octet_length_ptr v t = pointer v
value_for Settable.desc_length v t = ulen (v % 2 ^ 64)
value_for Settable.name v t = text t
value_for Settable.octet_length v t = len (to_signed 64 v)
value_for Settable.parameter_type v t = smallint (to_signed 16 v)
value_for Settable.precision v t = smallint (to_signed 16 v)
value_for Settable.scale v t = smallint (to_signed 16 v)
value_for Settable.type v t = smallint (to_signed 16 v)

is_header-field_of : (f : Settable) → is_header (field_of f) ≡ false
is_header-field_of Settable.concise_type = refl
is_header-field_of Settable.data_ptr = refl
is_header-field_of Settable.datetime_interval_code = refl
is_header-field_of Settable.datetime_interval_precision = refl
is_header-field_of Settable.indicator_ptr = refl
is_header-field_of Settable.octet_length_ptr = refl
is_header-field_of Settable.desc_length = refl
is_header-field_of Settable.name = refl
is_header-field_of Settable.octet_length = refl
is_header-field_of Settable.parameter_type = refl
is_header-field_of Settable.precision = refl
is_header-field_of Settable.scale = refl
is_header-field_of Settable.type = refl

set_field-record :
    (d : Descriptor) (i : ℕ) (f : Settable) (value : ℕ) (t : Bytes) (r : DescriptorRecord)
    → d.is_writable ≡ true
    → i < length d.records
    → get_elem? d.records i ≡ some r
    → set_field d (pos (suc i)) (field_of f) value t ≡ set_record_field d i r (field_of f) value t
unfolding set_field
set_field-record d i f value t r w lt h =
    ap (λ b. if not b then throws read_only else set_writable d (pos (suc i)) (field_of f) value t)
      w
    ∙ ap
        (λ b.
          if b
          then set_header_field d (field_of f) value
          else set_checked d (pos (suc i)) (field_of f) value t)
        (is_header-field_of f)
    ∙ ap (λ b. if b then bad_index else set_numbered d (pos (suc i)) (field_of f) value t)
        (ge→ltb (length d.records) (suc i) (omega arith))
    ∙ at_record-some d i (λ r. set_record_field d i r (field_of f) value t) r h

module _ (wchar_size : ℕ) (utf8_to_wcs : Bytes → Bytes) (target : Target) (ds : Diagnostics) where
  get_in_range-at :
      (d : Descriptor) (i : ℕ) (field : DescField) (r : DescriptorRecord)
      → i < length d.records
      → get_elem? d.records i ≡ some r
      → get_in_range wchar_size utf8_to_wcs d (pos (suc i)) field target ds
        ≡ get_record_field wchar_size utf8_to_wcs r field target ds
  get_in_range-at d i field r lt h =
      ap
        (λ b.
          if b
          then throws no_record
          else read_at wchar_size utf8_to_wcs (get_elem? d.records i) field target ds)
        (ge→ltb (length d.records) (suc i) (omega arith))
      ∙ ap (λ o. read_at wchar_size utf8_to_wcs o field target ds) h

  -- Reading a settable field of the record that was stored in place of another.
  module _ (d : Descriptor) (i : ℕ) (lt : i < length d.records) where
    read_stored :
        (f : Settable) (r : DescriptorRecord) (v : Value)
        → get_record_field wchar_size utf8_to_wcs r (field_of f) target ds
          ≡ reply_with wchar_size utf8_to_wcs v target ds
        → get_in_range wchar_size utf8_to_wcs
            (record d { records = set d.records i r; has_bindings_changed = true })
            (pos (suc i))
            (field_of f)
            target
            ds
          ≡ reply_with wchar_size utf8_to_wcs v target ds
    read_stored f r v h =
        get_in_range-at (record d { records = set d.records i r; has_bindings_changed = true }) i
          (field_of f) r (omega (arith, length-set d.records i r))
          (get_elem?-set_self d.records i r lt)
        ∙ h

    -- What each case of the switch stores is what the field then reads.
    read_set :
        (f : Settable) (r : DescriptorRecord) (value : ℕ) (t : Bytes)
        → get_elem? d.records i ≡ some r
        → (set_record_field d i r (field_of f) value t
            >>= (λ e. get_in_range wchar_size utf8_to_wcs e (pos (suc i)) (field_of f) target ds))
          ≡ reply_with wchar_size utf8_to_wcs (value_for f value t) target ds
    unfolding set_record_field get_record_field attribute_of set_data_ptr_on_record set_data_ptr_at
    read_set Settable.concise_type r value t h =
        read_stored Settable.concise_type _ (value_for Settable.concise_type value t) refl
    read_set Settable.data_ptr r value t h =
        ap
          (λ o. o >>= (λ e.
            get_in_range wchar_size utf8_to_wcs e (pos (suc i)) DescField.data_ptr target ds))
          (at_record-some d i (λ r. returns (set_data_ptr_at d i r value)) r h)
        ∙ get_in_range-at (set_data_ptr_at d i r value) i DescField.data_ptr _
            (omega (
              arith,
              length-set d.records i (record r { is_bound = not (value == 0); data_ptr = value }),
            ))
            (get_elem?-set_self d.records i _ lt)
    read_set Settable.datetime_interval_code r value t h =
        read_stored Settable.datetime_interval_code _
          (value_for Settable.datetime_interval_code value t) refl
    read_set Settable.datetime_interval_precision r value t h =
        read_stored Settable.datetime_interval_precision _
          (value_for Settable.datetime_interval_precision value t) refl
    read_set Settable.indicator_ptr r value t h =
        read_stored Settable.indicator_ptr _ (value_for Settable.indicator_ptr value t) refl
    read_set Settable.octet_length_ptr r value t h =
        read_stored Settable.octet_length_ptr _ (value_for Settable.octet_length_ptr value t) refl
    read_set Settable.desc_length r value t h =
        read_stored Settable.desc_length _ (value_for Settable.desc_length value t) refl
    read_set Settable.name r value t h =
        read_stored Settable.name _ (value_for Settable.name value t) refl
    read_set Settable.octet_length r value t h =
        read_stored Settable.octet_length _ (value_for Settable.octet_length value t) refl
    read_set Settable.parameter_type r value t h =
        read_stored Settable.parameter_type _ (value_for Settable.parameter_type value t) refl
    read_set Settable.precision r value t h =
        read_stored Settable.precision _ (value_for Settable.precision value t) refl
    read_set Settable.scale r value t h =
        read_stored Settable.scale _ (value_for Settable.scale value t) refl
    read_set Settable.type r value t h =
        read_stored Settable.type _ (value_for Settable.type value t) refl

  get_field-record :
      (d : Descriptor) (i : ℕ) (f : Settable)
      → get_field wchar_size utf8_to_wcs d (pos (suc i)) (field_of f) target ds
        ≡ get_in_range wchar_size utf8_to_wcs d (pos (suc i)) (field_of f) target ds
  unfolding get_field
  get_field-record d i f =
      ap
        (λ b.
          if b
          then get_header_field d (field_of f)
            >>= (λ v. reply_with wchar_size utf8_to_wcs v target ds)
          else get_in_range wchar_size utf8_to_wcs d (pos (suc i)) (field_of f) target ds)
        (is_header-field_of f)

  -- On a writable descriptor, setting a settable field of a record that the vector has succeeds, and
  -- reading the field then answers with the argument, cut to the width of the field's type: as
  -- `GetAttribute` writes it, and for the name as `GetStringAttribute` does, which is to cut it to the
  -- buffer and to warn of that, in UTF-8 or in SQLWCHAR.
  pub get_field-set_field :
      (d : Descriptor) (i : ℕ) (f : Settable) (value : ℕ) (t : Bytes)
      → d.is_writable ≡ true
      → i < length d.records
      → (set_field d (pos (suc i)) (field_of f) value t
          >>= (λ e. get_field wchar_size utf8_to_wcs e (pos (suc i)) (field_of f) target ds))
        ≡ reply_with wchar_size utf8_to_wcs (value_for f value t) target ds
  get_field-set_field d i f value t w lt =
      let (r, h) = get_elem?-some d.records i lt in
      ap (λ o. o >>= (λ e. get_field wchar_size utf8_to_wcs e (pos (suc i)) (field_of f) target ds))
        (set_field-record d i f value t r w lt h)
      ∙ >>=-ext (set_record_field d i r (field_of f) value t) (λ e. get_field-record e i f)
      ∙ read_set d i lt f r value t h
