-- ===== src/Attribute/StringAttribute.antt =====
-- `GetAttributeSQLWCHAR` and `GetStringAttribute` of
-- odbcabstraction/include/odbcabstraction/odbc_impl/AttributeUtils.h, with `ConvertToSqlWChar` of
-- EncodingUtils.h. The conversion of a text to the bytes of wide characters is the standard
-- library's, an argument.
use gizmosql_odbc_driver.Prelude.{
  ℕ, ◌+◌, ◌-◌, ◌*◌, ◌/◌, Bool, false, List, ◌++◌, length, take, drop, replicate, Option, none, some,
  ltb, leb, if◌then◌else◌,
}
use gizmosql_odbc_driver.Prelude.Int.{ℤ, to_size, to_signed}
use gizmosql_odbc_driver.Exceptions.{Outcome, returns, faults, ◌>>=◌}
use gizmosql_odbc_driver.Handle.{success, success_with_info}
use gizmosql_odbc_driver.Diagnostics.{Diagnostics}
use gizmosql_odbc_driver.Attribute.{
  LengthType, Written, cast_size, min_ℤ, get_attribute_utf8, with_warning,
}

-- `memcpy` of the first bytes, or all-zero bytes, into the memory behind a pointer.
abbrev pub write_bytes : ℕ → List ℕ → List ℕ → Outcome (List ℕ)
write_bytes at bytes buffer =
    if leb (at + length bytes) (length buffer)
    then returns (take at buffer ++ (bytes ++ drop (at + length bytes) buffer))
    else faults

abbrev pub copy_bytes : ℕ → List ℕ → List ℕ → Outcome (List ℕ)
copy_bytes n bytes buffer =
    if leb n (length bytes) then write_bytes 0 (take n bytes) buffer else faults

-- The platform's SQLWCHAR and the conversion.
module _ (wchar_size : ℕ) (utf8_to_wcs : List ℕ → List ℕ) where
  -- The terminator goes behind the text, or to the last whole character of the buffer.
  abbrev pub terminate : List ℕ → ℤ → List ℕ → Outcome (List ℕ)
  terminate wide buffer_size buffer =
      if leb (length wide + wchar_size) (to_size buffer_size)
      then write_bytes (length wide / wchar_size * wchar_size) (replicate wchar_size 0) buffer
      else if ltb 0 (to_size buffer_size / wchar_size)
      then write_bytes ((to_size buffer_size / wchar_size - 1) * wchar_size)
          (replicate wchar_size 0) buffer
      else returns buffer

  -- What is behind the pointer then, and the bytes that the whole text needs.
  unfoldable pub convert_to_sql_wchar : List ℕ → Option (List ℕ) → ℤ → Outcome (Option (List ℕ) × ℕ)
  convert_to_sql_wchar value none buffer_size = returns (none, length (utf8_to_wcs value))
  convert_to_sql_wchar value (some buffer) buffer_size =
      let wide = utf8_to_wcs value in
      copy_bytes (to_size (min_ℤ (to_signed 64 (length wide)) buffer_size)) wide buffer
      >>= λ copied. terminate wide buffer_size copied >>= λ ended. returns (some ended, length wide)

  abbrev pub is_short : Option (List ℕ) → ℤ → ℕ → Bool
  is_short none output_size needed = false
  is_short (some buffer) output_size needed = ltb (to_size output_size) needed

  -- The length is in bytes, as the descriptors ask for it.
  unfoldable pub get_attribute_sqlwchar :
      LengthType → List ℕ → Option (List ℕ) → ℤ → Outcome Written
  unfolding convert_to_sql_wchar
  get_attribute_sqlwchar o value output output_size =
      convert_to_sql_wchar value output output_size >>= λ (ended, result). returns (record {
        output = ended;
        output_len = cast_size o result;
        code =
            (if is_short output output_size (result + wchar_size)
              then success_with_info
              else success);
      })

  unfoldable pub get_string_attribute :
      Bool
      → LengthType
      → List ℕ
      → Option (List ℕ)
      → ℤ
      → Diagnostics
      → Outcome (Diagnostics × Written)
  unfolding get_attribute_sqlwchar get_attribute_utf8
  get_string_attribute is_unicode o value output output_size d =
      (if is_unicode
        then get_attribute_sqlwchar o value output output_size
        else get_attribute_utf8 o value output output_size)
      >>= with_warning d
