-- ===== src/Attribute/Utf8.antt =====
-- What the application gets of a text attribute.
use gizmosql_odbc_driver.Prelude.{
  take-all, ltb→lt, Bool-cases, inl, inr, ◌⊎◌, ℕ, suc, ◌+◌, ◌-◌, ◌^◌, ◌≤◌, ◌<◌, false, List, [],
  ◌∷◌, ◌++◌, length, take, drop, some, ltb, ◌==◌, zero, min, length-append, length-take,
  length-drop, if◌then◌else◌, ◌≡◌, refl, ap, ◌∙◌, arith, lt→ltb, ge→ltb,
}
use gizmosql_odbc_driver.Prelude.Int.{pos}
use gizmosql_odbc_driver.Exceptions.{returns, faults, ◌>>=◌}
use gizmosql_odbc_driver.Handle.{ReturnCode, success, success_with_info}
use gizmosql_odbc_driver.Diagnostics.{Diagnostics, add_truncation_warning}
use gizmosql_odbc_driver.Attribute.{
  LengthType, smallint, integer, len, cast_size, Written, copy_with_nul, len_before_nul,
  get_attribute_utf8, get_attribute_utf8_with_diagnostics, written, warned, with_warning,
}

-- The sizes that the length type can hold.
abbrev pub limit : LengthType → ℕ
limit smallint = 2 ^ 15
limit integer = 2 ^ 31
limit len = 2 ^ 63

len_before_nul-min :
    (o : LengthType) (value : List ℕ) (size : ℕ)
    → length value < limit o
    → 0 < size
    → size < limit o
    → len_before_nul o value (pos size) ≡ min (length value) (size - 1)
unfolding len_before_nul
len_before_nul-min smallint value size h p s = ground arith
len_before_nul-min integer value size h p s = ground arith
len_before_nul-min len value size h p s = ground arith

cast_size-pos : (o : LengthType) (n : ℕ) → n < limit o → cast_size o n ≡ pos n
cast_size-pos smallint n h = ground arith
cast_size-pos integer n h = ground arith
cast_size-pos len n h = ground arith

-- A C string: the bytes up to the first NUL.
unfoldable pub c_string : List ℕ → List ℕ
c_string [] = []
c_string (c ∷ s) = let rest = c_string s in if c == 0 then [] else c ∷ rest

abbrev pub HasNoNul : List ℕ → Type 0
HasNoNul [] = Unit
HasNoNul (c ∷ s) = (0 < c) × HasNoNul s

c_string-terminated : (s rest : List ℕ) → HasNoNul s → c_string (s ++ 0 ∷ rest) ≡ s
unfolding c_string
c_string-terminated [] rest h = refl
c_string-terminated (c ∷ s) rest h =
    let other : c == 0 ≡ false = ground arith in
    rw other (ap (◌∷◌ c) (c_string-terminated s rest h.1))

HasNoNul-take : (n : ℕ) (s : List ℕ) → HasNoNul s → HasNoNul (take n s)
HasNoNul-take zero s h = tt
HasNoNul-take (suc n) [] h = tt
HasNoNul-take (suc n) (c ∷ s) h = (h.0, HasNoNul-take n s h.1)

-- A whole attribute or a truncated one, with the warning that goes with it.
abbrev pub IsWhole : List ℕ → List ℕ → Diagnostics → Diagnostics → ReturnCode → Type 0
IsWhole value out d d' code = (c_string out ≡ value) × (code ≡ success) × (d' ≡ d)

abbrev pub IsTruncated : List ℕ → List ℕ → Diagnostics → Diagnostics → ReturnCode → Type 0
IsTruncated value out d d' code =
    (c_string out ≡ take (length out - 1) value)
    × (code ≡ success_with_info)
    × (d' ≡ add_truncation_warning d)

pub record IsAnswer (value buffer : List ℕ) (d : Diagnostics) (r : Diagnostics × Written)
    : Type 0 where
  pub out : List ℕ
  pub output : r.1.output ≡ some out
  pub size_kept : length out ≡ length buffer
  pub full_length : r.1.output_len ≡ pos (length value)
  pub verdict :
      ((length value < length buffer) × IsWhole value out d r.0 r.1.code)
      ⊎ ((length buffer ≤ length value) × IsTruncated value out d r.0 r.1.code)

-- The buffer after the copy.
abbrev copied : List ℕ → ℕ → List ℕ → List ℕ
copied value n buffer = take n value ++ 0 ∷ drop (n + 1) buffer

length-copied :
    (value buffer : List ℕ) (n : ℕ)
    → n ≤ length value
    → n < length buffer
    → length (copied value n buffer) ≡ length buffer
length-copied value buffer n h fits = omega (
  arith,
  length-append (take n value) (0 ∷ drop (n + 1) buffer),
  length-take n value,
  length-drop (n + 1) buffer,
)

copy_with_nul-fits :
    (value buffer : List ℕ) (n : ℕ)
    → n < length buffer
    → copy_with_nul value n buffer ≡ returns (copied value n buffer)
unfolding copy_with_nul
copy_with_nul-fits value buffer n h = rw (lt→ltb n (length buffer) h)

abbrev code_of : List ℕ → List ℕ → ReturnCode
code_of value buffer = if ltb (length buffer) (length value + 1) then success_with_info else success

code_whole : (value buffer : List ℕ) → length value < length buffer → code_of value buffer ≡ success
code_whole value buffer h = rw (ge→ltb (length buffer) (length value + 1) (omega arith))

code_truncated :
    (value buffer : List ℕ)
    → length buffer ≤ length value
    → code_of value buffer ≡ success_with_info
code_truncated value buffer h = rw (lt→ltb (length buffer) (length value + 1) (omega arith))

-- A text attribute into a buffer of at least one byte, whose size and the value's are within the
-- length type: the buffer then holds a C string in its old size, which is the value, with
-- SQL_SUCCESS, if the value and its NUL fit, and else as much of its beginning as fits, with
-- SQL_SUCCESS_WITH_INFO and a truncation warning; the length is that of the whole value.
pub get_attribute_utf8-IsAnswer :
    (o : LengthType) (value buffer : List ℕ) (d : Diagnostics)
    → HasNoNul value
    → length value < limit o
    → 0 < length buffer
    → length buffer < limit o
    → (r : Diagnostics × Written) × (get_attribute_utf8_with_diagnostics o value
          (some buffer)
          (pos (length buffer))
          d
        ≡ returns r)
      × IsAnswer value buffer d r
unfolding get_attribute_utf8_with_diagnostics get_attribute_utf8
get_attribute_utf8-IsAnswer o value buffer d no_nul short some_room room =
    let n = min (length value) (length buffer - 1) in
    let code = code_of value buffer in
    let out = copied value n buffer in
    let kept = length-copied value buffer n (omega arith) (omega arith) in
    let text =
      c_string-terminated (take n value) (drop (n + 1) buffer) (HasNoNul-take n value no_nul) in
    let copies =
      ap (λ k. copy_with_nul value k buffer)
        (len_before_nul-min o value (length buffer) short some_room room)
      ∙ copy_with_nul-fits value buffer n (omega arith) in
    (
      (
        warned d code,
        record { output = some out; output_len = cast_size o (length value); code = code },
      ),
      ap (λ x. x >>= written o value (pos (length buffer)) >>= with_warning d) copies,
      record {
        out = out;
        output = refl;
        size_kept = kept;
        full_length = cast_size-pos o (length value) short;
        verdict = elim (Bool-cases (ltb (length value) (length buffer))) [
          | inl less ↦
              let fits : length value < length buffer =
                ltb→lt (length value) (length buffer) less in
              inl (
                fits,
                (
                  text ∙ take-all n value (omega arith),
                  code_whole value buffer fits,
                  ap (warned d) (code_whole value buffer fits),
                ),
              )
          | inr more ↦
              let long : length buffer ≤ length value = ground arith in
              let cut : n ≡ length out - 1 = omega (arith, kept) in
              inr (
                long,
                (
                  text ∙ ap (λ k. take k value) cut,
                  code_truncated value buffer long,
                  ap (warned d) (code_truncated value buffer long),
                ),
              )
        ];
      },
    )

len_before_nul-zero_size :
    (o : LengthType) (value : List ℕ)
    → length value < limit o
    → len_before_nul o value (pos 0) ≡ 2 ^ 64 - 1
unfolding len_before_nul
len_before_nul-zero_size smallint value h = ground arith
len_before_nul-zero_size integer value h = ground arith
len_before_nul-zero_size len value h = ground arith

copy_with_nul-past :
    (value buffer : List ℕ) (n : ℕ) → length buffer ≤ n → copy_with_nul value n buffer ≡ faults
unfolding copy_with_nul
copy_with_nul-past value buffer n h = rw (ge→ltb n (length buffer) h)

-- With a size of zero and a pointer that is not null, for any value whose size is within the length
-- type, the copy runs past the buffer, whatever memory of less than 2^63 bytes is behind it.
pub zero_size_faults :
    (o : LengthType) (value buffer : List ℕ)
    → length value < limit o
    → length buffer < 2 ^ 63
    → get_attribute_utf8 o value (some buffer) (pos 0) ≡ faults
unfolding get_attribute_utf8
zero_size_faults o value buffer short room =
    ap (λ k. copy_with_nul value k buffer >>= written o value (pos 0))
      (len_before_nul-zero_size o value short)
    ∙ ap (◌>>= written o value (pos 0)) (copy_with_nul-past value buffer (2 ^ 64 - 1) (omega arith))
