-- ===== src/Cell/TextRead.antt =====
-- Reading one cell of text by repeated calls of SQLGetData.
use gizmosql_odbc_driver.Prelude.{
  take-all, ℕ, ◌+◌, ◌-◌, ◌*◌, ◌/◌, ◌≤◌, ◌<◌, ◌%◌, ◌^◌, zero, suc, Bool, true, false, ◌&&◌, ◌==◌,
  List, [], ◌∷◌, ◌++◌, length, take, drop, replicate, min, ltb, leb, if◌then◌else◌, ◌≡◌, refl, ap,
  arith, sym, ◌∙◌, length-drop, length-replicate, Option, some, none, ltb→lt, lt→ltb, inl, inr,
  Bool-cases,
}
use gizmosql_odbc_driver.Prelude.Int.{pos, negsuc}
use gizmosql_odbc_driver.Cell.{
  Moved, write_at, move_to_char_buffer, row_success, row_success_with_info,
}
use gizmosql_odbc_driver.Exceptions.{returns}
use gizmosql_odbc_driver.Cell.Slot.{
  take-take, take-drop_rest, take-write_at, length-write_at, copied_front, drop-write_at,
  length-copied, read_on, after_call, remaining_length-inside, copied-inside,
}

-- The character types that the driver is compiled for, and `sizeof(CHAR_TYPE)`.
pub data CharType : Type 0 where
  char utf16 utf32 : CharType

abbrev size : CharType → ℕ
size char = 1
size utf16 = 2
size utf32 = 4

abbrev all_zero : List ℕ → Bool
all_zero [] = true
all_zero (b ∷ bs) = (b == 0) && all_zero bs

-- The bytes of data that the application takes from a slot of `l` bytes: after a truncation all but
-- the terminator's.
abbrev data_length : ℕ → ℕ → Moved → ℕ
data_length char_size l moved =
    if (Moved.warned moved) then (l - char_size) else (Moved.strlen moved)

-- An application that reads a cell of text to its end, with at most `n` calls; it gives up when the
-- data of a call does not end in a NUL of the character's size.
unfoldable pub read_text : CharType → ℕ → List ℕ → ℕ → ℕ → List ℕ → Option (List ℕ)
read_text c zero value l o buffer = none
read_text c (suc n) value l o buffer =
    after_call (move_to_char_buffer (size c) value l o true buffer) (λ moved.
      let m = data_length (size c) l moved in
      let rest =
        read_on (Moved.value_offset moved) (take m (Moved.buffer moved))
          (λ o'. read_text c n value l o' (Moved.buffer moved)) in
      if all_zero (take (size c) (drop m (Moved.buffer moved))) then rest else none)

size_pos : (c : CharType) → 0 < size c
size_pos char = omega arith
size_pos utf16 = omega arith
size_pos utf32 = omega arith

-- A slot of at least two characters: where the terminator of a full slot goes.
slot_chars :
    (c : CharType) (k l : ℕ)
    → l ≡ (k + 2) * size c
    → (0 < l / size c) × ((l / size c - 1) * size c ≡ l - size c) × (size c < l)
slot_chars char k l h = omega arith
slot_chars utf16 k l h = omega arith
slot_chars utf32 k l h = omega arith

whole_chars : (c : CharType) (q r : ℕ) → r ≡ q * size c → r / size c * size c ≡ r
whole_chars char q r h = omega arith
whole_chars utf16 q r h = omega arith
whole_chars utf32 q r h = omega arith

-- What a full slot leaves is whole characters again.
whole_rest :
    (c : CharType) (k q l r : ℕ)
    → l ≡ (k + 2) * size c
    → r ≡ q * size c
    → r - (l - size c) ≡ (q - suc k) * size c
whole_rest char k q l r h e = omega arith
whole_rest utf16 k q l r h e = omega arith
whole_rest utf32 k q l r h e = omega arith

all_zero-replicate : (n : ℕ) (rest : List ℕ) → all_zero (take n (replicate n 0 ++ rest)) ≡ true
all_zero-replicate zero rest = refl
all_zero-replicate (suc n) rest = all_zero-replicate n rest

-- A terminator that was written at `k` is found there.
terminated :
    (n k : ℕ) (buffer : List ℕ)
    → k ≤ length buffer
    → all_zero (take n (drop k (write_at k (replicate n 0) buffer))) ≡ true
terminated n k buffer h =
    rw (drop-write_at k (replicate n 0) buffer h)
      (all_zero-replicate n (drop (k + length (replicate {A = ℕ} n 0)) buffer))

abbrev part_moved : ℕ → ℕ → List ℕ → ℕ → List ℕ → Moved
part_moved char_size l value o buffer = record {
  buffer =
      write_at (l - char_size) (replicate char_size 0)
        (write_at 0 (take (min (length value - o) l) (drop o value)) buffer);
  value_offset = pos (o + (l - char_size));
  strlen = length value - o;
  status = row_success_with_info;
  warned = true;
}

abbrev rest_moved : ℕ → List ℕ → ℕ → List ℕ → Moved
rest_moved char_size value o buffer = record {
  buffer =
      write_at (length value - o) (replicate char_size 0)
        (write_at 0 (take (length value - o) (drop o value)) buffer);
  value_offset = negsuc 0;
  strlen = length value - o;
  status = row_success;
  warned = false;
}

no_wrap : (c : CharType) (r : ℕ) → r < 2 ^ 63 → (r + size c) % 2 ^ 64 ≡ r + size c
no_wrap char r h = omega arith
no_wrap utf16 r h = omega arith
no_wrap utf32 r h = omega arith

text_more :
    (c : CharType) (value : List ℕ) (k l o : ℕ) (buffer : List ℕ)
    → l ≡ (k + 2) * size c
    → o ≤ length value
    → length value < 2 ^ 63
    → l < length value - o + size c
    → move_to_char_buffer (size c) value l o true buffer
      ≡ returns (part_moved (size c) l value o buffer)
unfolding move_to_char_buffer
text_more c value k l o buffer slot inside bounded h =
    let s = slot_chars c k l slot in
    let r = length value - o in
    let long : leb (r + size c) l ≡ false = ground arith in
    rw (remaining_length-inside (length value) o inside bounded) (
      rw (copied-inside value o (min r l) buffer inside (omega arith), no_wrap c r (omega arith))
        (rw (long, lt→ltb 0 (l / size c) s.0) (rw s.1)))

text_last :
    (c : CharType) (value : List ℕ) (q l o : ℕ) (buffer : List ℕ)
    → length value - o ≡ q * size c
    → o ≤ length value
    → length value < 2 ^ 63
    → length value - o + size c ≤ l
    → move_to_char_buffer (size c) value l o true buffer
      ≡ returns (rest_moved (size c) value o buffer)
unfolding move_to_char_buffer
text_last c value q l o buffer whole inside bounded h =
    let r = length value - o in
    let short : leb (r + size c) l ≡ true = ground arith in
    let all : min r l ≡ r = omega arith in
    rw (remaining_length-inside (length value) o inside bounded, all)
      (rw (copied-inside value o r buffer inside (omega arith), no_wrap c r (omega arith))
        (rw short (rw (whole_chars c q r whole))))

-- Where a slot is cut, the data before is still what was copied.
take-part :
    (n m o : ℕ) (value buffer : List ℕ)
    → m ≤ n
    → n ≤ length value - o
    → take m (write_at 0 (take n (drop o value)) buffer) ≡ take m (drop o value)
take-part n m o value buffer m_le n_le =
    let copied = write_at 0 (take n (drop o value)) buffer in
    sym (take-take m n copied m_le)
    ∙ ap (take m) (copied_front n o value buffer n_le)
    ∙ take-take m n (drop o value) m_le

-- With an offset inside the value, a slot of at least two whole characters, whole characters left
-- and more calls than bytes are left, the pieces make up what was left, each of them terminated. A
-- value is below half of size_t's range.
pub read_text_lem :
    (c : CharType) (n : ℕ) (value : List ℕ) (k q l o : ℕ) (buffer : List ℕ)
    → o ≤ length value
    → length value < 2 ^ 63
    → l ≡ (k + 2) * size c
    → length buffer ≡ l
    → length value - o ≡ q * size c
    → length value - o < n
    → read_text c n value l o buffer ≡ some (drop o value)
unfolding read_text
read_text_lem c zero value k q l o buffer inside bounded slot fits whole enough =
    absurd (omega arith)
read_text_lem c (suc n) value k q l o buffer inside bounded slot fits whole enough =
    let s = slot_chars c k l slot in
    let pos_size = size_pos c in
    let r = length value - o in
    elim (Bool-cases (ltb l (r + size c))) [
      | inl more ↦
          let h : l < r + size c = ltb→lt l (r + size c) more in
          let copied = write_at 0 (take (min r l) (drop o value)) buffer in
          let kept = length-copied (min r l) o value buffer (omega arith) (omega arith) in
          let nul_length = length-replicate {A = ℕ} (size c) 0 in
          let rest =
            read_text_lem c n value k (q - suc k) l (o + (l - size c))
              (write_at (l - size c) (replicate (size c) 0) copied) (omega arith) bounded slot
              (length-write_at (l - size c) (replicate (size c) 0) copied
                  (omega (arith, kept, nul_length))
                ∙ kept
                ∙ fits)
              (omega (arith, whole_rest c k q l r slot whole)) (omega arith) in
          rw (text_more c value k l o buffer slot inside bounded h) (
            rw (terminated (size c) (l - size c) copied (omega (arith, kept))) (
              rw rest (
                rw
                  (take-write_at (l - size c) (l - size c) (replicate (size c) 0) copied
                    (omega arith) (omega (arith, kept)))
                  (rw (take-part (min r l) (l - size c) o value buffer (omega arith) (omega arith))
                    (ap some (take-drop_rest o (l - size c) value))))))
      | inr last ↦
          let h : r + size c ≤ l = ground arith in
          let copied = write_at 0 (take r (drop o value)) buffer in
          let kept = length-copied r o value buffer (omega arith) (omega arith) in
          rw (text_last c value q l o buffer whole inside bounded h) (
            rw (terminated (size c) r copied (omega (arith, kept))) (
              rw
                (take-write_at r r (replicate (size c) 0) copied (omega arith)
                  (omega (arith, kept)))
                (rw (copied_front r o value buffer (omega arith))
                  (ap some (take-all r (drop o value) (omega (arith, length-drop o value)))))))
    ]
