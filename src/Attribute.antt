-- ===== src/Attribute.antt =====
-- odbcabstraction/include/odbcabstraction/odbc_impl/AttributeUtils.h: text attributes in UTF-8 into
-- the application's buffer. `value` is the attribute's bytes and `output` the memory behind the
-- pointer, if it is not null; a write past it is undefined. The lengths are of one of ODBC's signed
-- types, and comparisons with a std::string's size are of size_t.
pub mod Utf8
pub mod StringAttribute
use gizmosql_odbc_driver.Prelude.{
  ℕ, ◌+◌, Bool, true, false, List, [], ◌∷◌, ◌++◌, length, take, drop, Option, none, some, ltb,
  if◌then◌else◌,
}
use gizmosql_odbc_driver.Prelude.Int.{ℤ, pos, negsuc, to_signed, to_size, leb_ℤ, ◌-ℤ◌}
use gizmosql_odbc_driver.Exceptions.{Outcome, returns, throws, faults, ◌>>=◌}
use gizmosql_odbc_driver.Handle.{ReturnCode, success, success_with_info}
use gizmosql_odbc_driver.Diagnostics.{Diagnostics, add_truncation_warning}

-- SQLSMALLINT, SQLINTEGER and SQLLEN
pub data LengthType : Type 0 where
  smallint integer len : LengthType

abbrev pub width : LengthType → ℕ
width smallint = 16
width integer = 32
width len = 64

-- `static_cast<O>` of a size, and of a signed number.
abbrev pub cast_size : LengthType → ℕ → ℤ
cast_size o n = to_signed (width o) n

abbrev pub cast : LengthType → ℤ → ℤ
cast o z = to_signed (width o) (to_size z)

abbrev pub min_ℤ : ℤ → ℤ → ℤ
min_ℤ a b = if leb_ℤ a b then a else b

-- What the call leaves in the buffer and in the length.
pub record Written : Type 0 where
  pub output : Option (List ℕ)
  pub output_len : ℤ
  pub code : ReturnCode

-- `memcpy` of so many bytes and the NUL behind them.
unfoldable pub copy_with_nul : List ℕ → ℕ → List ℕ → Outcome (List ℕ)
copy_with_nul value n buffer =
    if ltb n (length buffer) then returns (take n value ++ 0 ∷ drop (n + 1) buffer) else faults

unfoldable pub len_before_nul : LengthType → List ℕ → ℤ → ℕ
unfolding ◌-ℤ◌
len_before_nul o value output_size =
    to_size (min_ℤ (cast_size o (length value)) (cast o (output_size -ℤ pos 1)))

abbrev pub written : LengthType → List ℕ → ℤ → List ℕ → Outcome Written
written o value output_size buffer = returns (record {
  output = some buffer;
  output_len = cast_size o (length value);
  code = (if ltb (to_size output_size) (length value + 1) then success_with_info else success);
})

unfoldable pub get_attribute_utf8 : LengthType → List ℕ → Option (List ℕ) → ℤ → Outcome Written
unfolding copy_with_nul len_before_nul
get_attribute_utf8 o value none output_size =
    returns (record { output = none; output_len = cast_size o (length value); code = success })
get_attribute_utf8 o value (some buffer) output_size =
    copy_with_nul value (len_before_nul o value output_size) buffer >>= written o value output_size

abbrev pub warned : Diagnostics → ReturnCode → Diagnostics
warned d success_with_info = add_truncation_warning d
warned d _ = d

abbrev pub with_warning : Diagnostics → Written → Outcome (Diagnostics × Written)
with_warning d w = returns (warned d w.code, w)

-- The overload that takes the diagnostics.
unfoldable pub get_attribute_utf8_with_diagnostics :
    LengthType → List ℕ → Option (List ℕ) → ℤ → Diagnostics → Outcome (Diagnostics × Written)
unfolding get_attribute_utf8
get_attribute_utf8_with_diagnostics o value output output_size d =
    get_attribute_utf8 o value output output_size >>= with_warning d
