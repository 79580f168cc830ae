-- ===== src/Descriptor/Covered.antt =====
-- What every operation of an application descriptor keeps, `SetField` included. Setting a field
-- such as SQL_DESC_TYPE unbinds a record and leaves the number, so from then on the number is an
-- upper bound of the bound records.
use native.Mathlib.Decide.{ℕ_discrete}
use mathlib.Core.Bool.{false≢true}
use gizmosql_odbc_driver.Prelude.{
  ℕ, zero, suc, ◌≤◌, ◌<◌, ◌≡◌, refl, sym, ap, ◌∙◌, subst, inl, inr, Bool, true, false, not, some,
  arith, length, get_elem?, get_elem?-some, ltb, ◌==◌, ◌&&◌, if◌then◌else◌, Bool-cases, length-set,
}
use gizmosql_odbc_driver.Prelude.Int.{ℤ, pos, negsuc, to_signed, to_size, leb_ℤ}
use gizmosql_odbc_driver.Exceptions.{Outcome, returns, throws, faults}
use gizmosql_odbc_driver.Descriptor.{
  Descriptor, bound_at, highest_bound_from, resize, resize_to, set_count, set_data_ptr_at,
  set_data_ptr_on_record, set_header_field, set_header_field_of, with_count, is_status_field,
  read_only, at_record-some, is_bound?,
}
use gizmosql_odbc_driver.Descriptor.Record.{DescriptorRecord, DescField, is_header, Bytes}
use gizmosql_odbc_driver.Descriptor.SetField.{
  set_field, set_writable, set_checked, set_in_range, bookmark, bad_index, set_numbered, is_zero,
  set_record_field, store,
}
use gizmosql_odbc_driver.Descriptor.Highest.{
  highest_bound_from-IsHighest, highest_bound_from-le, calculate_highest_lem, bound_at-set,
  bound_at-beyond, length-resize_to, narrow_small,
}

pub record IsCovered (d : Descriptor) : Type 0 where
  pub highest : ℕ
  pub stored : d.highest_one_based_bound_record ≡ pos highest
  pub above : (j : ℕ) → highest ≤ j → bound_at d.records j ≡ false
  pub fits : highest ≤ length d.records
  pub small : length d.records ≤ 32767

-- The operation stays defined, and the descriptor that it leaves, if it returns, is covered.
abbrev pub Covers : Outcome Descriptor → Type 0
Covers (returns d) = IsCovered d
Covers (throws e) = Unit
Covers faults = ⊥

-- The number of any vector of records, computed afresh, covers it.
fresh-IsCovered :
    (d : Descriptor)
    → length d.records ≤ 32767
    → d.highest_one_based_bound_record ≡ pos (highest_bound_from d.records (length d.records))
    → IsCovered d
fresh-IsCovered d small e = record {
  highest = highest_bound_from d.records (length d.records);
  stored = e;
  above = (highest_bound_from-IsHighest d.records).above;
  fits = highest_bound_from-le d.records (length d.records);
  small = small;
}

full-IsCovered :
    (d : Descriptor)
    → length d.records ≤ 32767
    → d.highest_one_based_bound_record ≡ pos (length d.records)
    → IsCovered d
full-IsCovered d small e = record {
  highest = length d.records;
  stored = e;
  above = bound_at-beyond d.records;
  fits = omega arith;
  small = small;
}

module _ (d : Descriptor) (i : ℕ) (r : DescriptorRecord) (lt : i < length d.records)
    (c : IsCovered d) where
  store-IsCovered : (r.is_bound ≡ true → bound_at d.records i ≡ true) → Covers (store d i r)
  store-IsCovered old = record {
    highest = c.highest;
    stored = c.stored;
    above = λ j h. ground (arith, bound_at-set d.records i j r lt, c.above j h);
    fits = rw length-set c.fits;
    small = rw length-set c.small;
  }

  length-set_data_ptr_at : (p : ℕ) → length (set_data_ptr_at d i r p).records ≡ length d.records
  unfolding set_data_ptr_at
  length-set_data_ptr_at p = rw length-set refl

  number_small : to_signed 16 (suc i) ≡ pos (suc i)
  number_small = narrow_small (suc i) (omega (arith, c.small))

  set_bound-IsCovered : (p : ℕ) → (p == 0) ≡ false → IsCovered (set_data_ptr_at d i r p)
  unfolding set_data_ptr_at
  set_bound-IsCovered p e = record {
    highest = (if ltb c.highest (suc i) then suc i else c.highest);
    stored = ground (arith, number_small, c.stored);
    above = λ j h. ground (
      arith,
      bound_at-set d.records i j (record r { is_bound = not (p == 0); data_ptr = p }) lt,
      c.above j,
    );
    fits = ground (arith, length-set_data_ptr_at p, c.fits);
    small = omega (arith, length-set_data_ptr_at p, c.small);
  }

  set_unbound-IsCovered : IsCovered (set_data_ptr_at d i r 0)
  unfolding set_data_ptr_at
  set_unbound-IsCovered =
      let new = set_data_ptr_at d i r 0 in
      let small : length new.records ≤ 32767 = omega (arith, length-set_data_ptr_at 0, c.small) in
      elim (ℕ_discrete c.highest (suc i)) [
        | yes top ↦
            fresh-IsCovered new small
              (ground (arith, number_small, c.stored, top, calculate_highest_lem new.records small))
        | no other ↦ record {
          highest = c.highest;
          stored = ground (arith, number_small, c.stored);
          above = λ j h. ground (
            arith,
            bound_at-set d.records i j (record r { is_bound = false; data_ptr = 0 }) lt,
            c.above j h,
          );
          fits = omega (arith, length-set_data_ptr_at 0, c.fits);
          small = small;
        }
      ]

  set_data_ptr_at-IsCovered : (p : ℕ) → IsCovered (set_data_ptr_at d i r p)
  set_data_ptr_at-IsCovered zero = set_unbound-IsCovered
  set_data_ptr_at-IsCovered (suc p) = set_bound-IsCovered (suc p) (ground arith)

-- One case for each field of the switch.
set_record_field-Covers :
    (d : Descriptor) (i : ℕ) (r : DescriptorRecord) (field : DescField) (value : ℕ) (text : Bytes)
    → get_elem? d.records i ≡ some r
    → i < length d.records
    → IsCovered d
    → Covers (set_record_field d i r field value text)
unfolding set_record_field set_data_ptr_on_record
set_record_field-Covers d i r DescField.data_ptr value text at lt c =
    subst Covers (sym (at_record-some d i _ r at)) (set_data_ptr_at-IsCovered d i r lt c value)
set_record_field-Covers d i r DescField.indicator_ptr value text at lt c =
    store-IsCovered d i _ lt c (λ e. ap is_bound? at ∙ e)
set_record_field-Covers d i r DescField.octet_length_ptr value text at lt c =
    store-IsCovered d i _ lt c (λ e. ap is_bound? at ∙ e)
set_record_field-Covers d i r DescField.name value text at lt c =
    store-IsCovered d i _ lt c (λ e. ap is_bound? at ∙ e)
set_record_field-Covers d i r DescField.concise_type value text at lt c =
    store-IsCovered d i _ lt c (λ e. cc)
set_record_field-Covers d i r DescField.datetime_interval_code value text at lt c =
    store-IsCovered d i _ lt c (λ e. cc)
set_record_field-Covers d i r DescField.datetime_interval_precision value text at lt c =
    store-IsCovered d i _ lt c (λ e. cc)
set_record_field-Covers d i r DescField.length value text at lt c =
    store-IsCovered d i _ lt c (λ e. cc)
set_record_field-Covers d i r DescField.octet_length value text at lt c =
    store-IsCovered d i _ lt c (λ e. cc)
set_record_field-Covers d i r DescField.parameter_type value text at lt c =
    store-IsCovered d i _ lt c (λ e. cc)
set_record_field-Covers d i r DescField.precision value text at lt c =
    store-IsCovered d i _ lt c (λ e. cc)
set_record_field-Covers d i r DescField.scale value text at lt c =
    store-IsCovered d i _ lt c (λ e. cc)
set_record_field-Covers d i r DescField.type value text at lt c =
    store-IsCovered d i _ lt c (λ e. cc)
set_record_field-Covers d i r _ value text at lt c = tt

set_count-IsCovered :
    (d : Descriptor) (n : ℕ)
    → IsCovered d
    → n ≤ 32767
    → IsCovered (set_count d (pos n) (resize_to d.records n))
unfolding set_count
set_count-IsCovered d n c small =
    let size = length-resize_to d.records n in
    elim (Bool-cases (d.is_app_descriptor && leb_ℤ (pos n) d.highest_one_based_bound_record)) [
      | inl recount ↦ fresh-IsCovered _ (omega (arith, size)) (
          rw (recount, set_count)
            (calculate_highest_lem (resize_to d.records n) (omega (arith, size))))
      | inr keep ↦ full-IsCovered _ (omega (arith, size)) (rw (keep, set_count) (ap pos (sym size)))
    ]

Covers-if :
    (b : Bool) (x y : Outcome Descriptor)
    → (b ≡ true → Covers x)
    → (b ≡ false → Covers y)
    → Covers (if b then x else y)
Covers-if true x y h k = h refl
Covers-if false x y h k = k refl

-- A SQLSMALLINT is at most 32767.
to_signed_small : (value n : ℕ) → to_signed 16 value ≡ pos n → n ≤ 32767
to_signed_small value n h = ground arith

count-Covers :
    (d : Descriptor) (value : ℕ) (z : ℤ)
    → to_signed 16 value ≡ z
    → IsCovered d
    → Covers (with_count d z (resize d.records z))
unfolding resize
count-Covers d value (pos n) e c = set_count-IsCovered d n c (to_signed_small value n e)
count-Covers d value (negsuc n) e c = tt

same-IsCovered :
    (d e : Descriptor)
    → e.records ≡ d.records
    → e.highest_one_based_bound_record ≡ d.highest_one_based_bound_record
    → IsCovered d
    → IsCovered e
same-IsCovered d e p q c = record {
  highest = c.highest;
  stored = q ∙ c.stored;
  above = λ j h. rw p (c.above j h);
  fits = rw p c.fits;
  small = rw p c.small;
}

set_header_field_of-Covers :
    (d : Descriptor) (field : DescField) (value : ℕ)
    → IsCovered d
    → Covers (set_header_field_of d field value)
set_header_field_of-Covers d DescField.count value c =
    count-Covers d value (to_signed 16 value) refl c
set_header_field_of-Covers d DescField.array_size value c = same-IsCovered d _ refl refl c
set_header_field_of-Covers d DescField.array_status_ptr value c = same-IsCovered d _ refl refl c
set_header_field_of-Covers d DescField.bind_offset_ptr value c = same-IsCovered d _ refl refl c
set_header_field_of-Covers d DescField.bind_type value c = same-IsCovered d _ refl refl c
set_header_field_of-Covers d DescField.rows_processed_ptr value c = same-IsCovered d _ refl refl c
set_header_field_of-Covers d _ value c = tt

pub set_header_field-Covers :
    (d : Descriptor) (field : DescField) (value : ℕ)
    → IsCovered d
    → Covers (set_header_field d field value)
unfolding set_header_field
set_header_field-Covers d field value c =
    Covers-if (not d.is_writable && not (is_status_field field)) (throws read_only)
      (set_header_field_of d field value) (λ e. tt)
      (λ e. set_header_field_of-Covers d field value c)

-- The range of a SQLSMALLINT.
abbrev pub IsSmallint : ℤ → Type 0
IsSmallint (pos n) = n ≤ 32767
IsSmallint (negsuc n) = n ≤ 32767

set_numbered-Covers :
    (d : Descriptor) (number : ℤ) (field : DescField) (value : ℕ) (text : Bytes)
    → IsSmallint number
    → is_zero number ≡ false
    → ltb (length d.records) (to_size number) ≡ false
    → IsCovered d
    → Covers (set_numbered d number field value text)
set_numbered-Covers d (pos zero) field value text range nz inside c = absurd (false≢true (sym nz))
set_numbered-Covers d (pos (suc i)) field value text range nz inside c =
    let lt : i < length d.records = ground arith in
    let (r, at) = get_elem?-some d.records i lt in
    subst Covers (sym (at_record-some d i _ r at))
      (set_record_field-Covers d i r field value text at lt c)
set_numbered-Covers d (negsuc n) field value text range nz inside c = absurd (ground arith)

-- Whatever the record number, the field and the value are, `SetField` stays inside the vector of
-- records, and if it returns, the descriptor's number still bounds the bound records from above
-- and is still at most the number of records, which a SQLSMALLINT counts.
pub set_field-Covers :
    (d : Descriptor) (number : ℤ) (field : DescField) (value : ℕ) (text : Bytes)
    → IsSmallint number
    → IsCovered d
    → Covers (set_field d number field value text)
unfolding set_field
set_field-Covers d number field value text range c =
    Covers-if (not d.is_writable) (throws read_only) (set_writable d number field value text)
      (λ e. tt)
      λ e1.
        Covers-if (is_header field) (set_header_field d field value)
          (set_checked d number field value text) (λ e. set_header_field-Covers d field value c)
          λ e2.
            Covers-if (is_zero number) bookmark (set_in_range d number field value text) (λ e. tt)
              λ nonzero.
                Covers-if (ltb (length d.records) (to_size number)) bad_index
                  (set_numbered d number field value text) (λ e. tt)
                  λ inside. set_numbered-Covers d number field value text range nonzero inside c
