-- ===== src/Cell/BinaryRead.antt =====
-- Reading one binary cell by repeated calls of SQLGetData.
use gizmosql_odbc_driver.Prelude.{
  take-all, ℕ, ◌+◌, ◌-◌, ◌≤◌, ◌<◌, ◌^◌, zero, suc, true, false, List, length, take, drop, min, ltb,
  ◌≡◌, ap, arith, ◌∙◌, length-drop, Option, some, none, ltb→lt, lt→ltb, inl, inr, ge→ltb,
  Bool-cases,
}
use gizmosql_odbc_driver.Prelude.Int.{pos, negsuc}
use gizmosql_odbc_driver.Cell.{
  Moved, write_at, move_to_binary_buffer, row_success, row_success_with_info,
}
use gizmosql_odbc_driver.Cell.Slot.{
  take-drop_rest, copied_front, length-copied, read_on, after_call, remaining_length-inside,
  copied-inside,
}
use gizmosql_odbc_driver.Exceptions.{returns}

-- The part of a slot of `l` bytes that a call has filled with data.
abbrev received : ℕ → Moved → List ℕ
received l moved = take (min (Moved.strlen moved) l) (Moved.buffer moved)

-- An application that reads a binary cell to its end, with at most `n` calls.
unfoldable pub read_binary : ℕ → List ℕ → ℕ → ℕ → List ℕ → Option (List ℕ)
read_binary zero value l o buffer = none
read_binary (suc n) value l o buffer =
    after_call (move_to_binary_buffer value l o true buffer) (λ moved.
      read_on (Moved.value_offset moved) (received l moved)
        (λ o'. read_binary n value l o' (Moved.buffer moved)))

abbrev part_moved : ℕ → List ℕ → ℕ → List ℕ → Moved
part_moved l value o buffer = record {
  buffer = write_at 0 (take l (drop o value)) buffer;
  value_offset = pos (o + l);
  strlen = length value - o;
  status = row_success_with_info;
  warned = true;
}

abbrev rest_moved : List ℕ → ℕ → List ℕ → Moved
rest_moved value o buffer = record {
  buffer = write_at 0 (take (length value - o) (drop o value)) buffer;
  value_offset = negsuc 0;
  strlen = length value - o;
  status = row_success;
  warned = false;
}

-- A call that does not reach the end of the cell fills the whole slot.
binary_more :
    (value : List ℕ) (l o : ℕ) (buffer : List ℕ)
    → o ≤ length value
    → length value < 2 ^ 63
    → l < length value - o
    → move_to_binary_buffer value l o true buffer ≡ returns (part_moved l value o buffer)
unfolding move_to_binary_buffer
binary_more value l o buffer inside bounded h =
    let all : min (length value - o) l ≡ l = omega arith in
    rw (remaining_length-inside (length value) o inside bounded, all)
      (rw (copied-inside value o l buffer inside (omega arith), lt→ltb l (length value - o) h))

binary_last :
    (value : List ℕ) (l o : ℕ) (buffer : List ℕ)
    → o ≤ length value
    → length value < 2 ^ 63
    → length value - o ≤ l
    → move_to_binary_buffer value l o true buffer ≡ returns (rest_moved value o buffer)
unfolding move_to_binary_buffer
binary_last value l o buffer inside bounded h =
    let all : min (length value - o) l ≡ length value - o = omega arith in
    rw (remaining_length-inside (length value) o inside bounded, all)
      (rw (
        copied-inside value o (length value - o) buffer inside (omega arith),
        ge→ltb l (length value - o) h,
      ))

-- With an offset inside the value, a slot of at least one byte and more calls than bytes are left,
-- the pieces make up what was left. A value is below half of size_t's range.
pub read_binary_lem :
    (n : ℕ) (value : List ℕ) (l o : ℕ) (buffer : List ℕ)
    → o ≤ length value
    → length value < 2 ^ 63
    → 0 < l
    → length buffer ≡ l
    → length value - o < n
    → read_binary n value l o buffer ≡ some (drop o value)
unfolding read_binary
read_binary_lem zero value l o buffer inside bounded l_pos fits enough = absurd (omega arith)
read_binary_lem (suc n) value l o buffer inside bounded l_pos fits enough =
    elim (Bool-cases (ltb l (length value - o))) [
      | inl more ↦
          let fills : l ≤ length value - o = omega (arith, ltb→lt l (length value - o) more) in
          let all : min (length value - o) l ≡ l = omega arith in
          let slot = write_at 0 (take l (drop o value)) buffer in
          let rest =
            read_binary_lem n value l (o + l) slot (omega arith) bounded l_pos
              (length-copied l o value buffer fills (omega arith) ∙ fits) (omega arith) in
          rw (binary_more value l o buffer inside bounded (ltb→lt l (length value - o) more)) (
            rw all (
              rw (copied_front l o value buffer fills)
                (rw rest (ap some (take-drop_rest o l value)))))
      | inr last ↦
          let fills : length value - o ≤ l = ground arith in
          let all : min (length value - o) l ≡ length value - o = omega arith in
          rw (binary_last value l o buffer inside bounded fills) (
            rw all (
              rw (copied_front (length value - o) o value buffer (omega arith)) (
                ap some (
                  take-all (length value - o) (drop o value)
                    (omega (arith, length-drop o value))))))
    ]
