-- ===== src/Cell.antt =====
-- One cell of text or binary data on its way into the application's buffer:
-- `MoveSingleCellToCharBuffer` of flight_sql/accessors/string_array_accessor.cc (the branches for
-- other platforms than Windows) and `MoveSingleCellToBinaryBuffer` of binary_array_accessor.cc.
-- `value` is the cell's bytes in the target encoding, `buffer` the bytes of the cell's slot in the
-- bound buffer, of which there are `buffer_length`, and `offset` a value offset that is not -1.
pub mod Slot
pub mod BinaryRead
pub mod TextRead
use gizmosql_odbc_driver.Prelude.{
  ℕ, ◌+◌, ◌-◌, ◌*◌, ◌/◌, ◌%◌, ◌^◌, Bool, true, false, not, List, [], ◌∷◌, ◌++◌, length, take, drop,
  replicate, min, ltb, leb, if◌then◌else◌,
}
use gizmosql_odbc_driver.Prelude.Int.{ℤ, pos, negsuc}
use gizmosql_odbc_driver.Exceptions.{Outcome, returns, faults, ◌>>=◌}

-- The two values of RowStatus that a cell's move returns.
pub data RowStatus : Type 0 where
  row_success row_success_with_info : RowStatus

-- What the call leaves: the slot, the offset (-1 when nothing remains), the length written to the
-- indicator, the row status, and whether a truncation warning was added.
pub record Moved : Type 0 where
  pub buffer : List ℕ
  pub value_offset : ℤ
  pub strlen : ℕ
  pub status : RowStatus
  pub warned : Bool

abbrev pub write_at : ℕ → List ℕ → List ℕ → List ℕ
write_at k new buffer = take k buffer ++ (new ++ drop (k + length new) buffer)

abbrev updated : Bool → ℤ → ℤ → ℤ
updated update new old = if update then new else old

-- `size_in_bytes - value_offset`, on size_t.
unfoldable pub remaining_length : ℕ → ℕ → ℕ
remaining_length size_in_bytes offset = (size_in_bytes + 2 ^ 64 - offset) % 2 ^ 64

-- `memcpy` from the offset on, which may not read past the value.
abbrev pub copied : List ℕ → ℕ → ℕ → List ℕ → Outcome (List ℕ)
copied value offset n buffer =
    if ltb (length value) (offset + n)
    then faults
    else returns (write_at 0 (take n (drop offset value)) buffer)

unfoldable pub move_to_char_buffer : ℕ → List ℕ → ℕ → ℕ → Bool → List ℕ → Outcome Moved
unfolding remaining_length
move_to_char_buffer char_size value buffer_length offset update buffer =
    let remaining = remaining_length (length value) offset in
    let nul = replicate char_size 0 in
    let chars_written = buffer_length / char_size in
    copied value offset (min remaining buffer_length) buffer >>= λ slot.
    if leb ((remaining + char_size) % 2 ^ 64) buffer_length
    then returns (record {
      buffer = write_at (remaining / char_size * char_size) nul slot;
      value_offset = updated update (negsuc 0) (pos offset);
      strlen = remaining;
      status = row_success;
      warned = false;
    })
    else returns (record {
      buffer =
          (if ltb 0 chars_written
            then write_at ((chars_written - 1) * char_size) nul slot
            else slot);
      value_offset =
          (if ltb 0 chars_written
            then updated update (pos (offset + (buffer_length - char_size))) (pos offset)
            else pos offset);
      strlen = remaining;
      status = row_success_with_info;
      warned = true;
    })

unfoldable pub move_to_binary_buffer : List ℕ → ℕ → ℕ → Bool → List ℕ → Outcome Moved
unfolding remaining_length
move_to_binary_buffer value buffer_length offset update buffer =
    let remaining = remaining_length (length value) offset in
    let value_length = min remaining buffer_length in
    copied value offset value_length buffer >>= λ slot.
    if ltb buffer_length remaining
    then returns (record {
      buffer = slot;
      value_offset = updated update (pos (offset + value_length)) (pos offset);
      strlen = remaining;
      status = row_success_with_info;
      warned = true;
    })
    else returns (record {
      buffer = slot;
      value_offset = updated update (negsuc 0) (pos offset);
      strlen = remaining;
      status = row_success;
      warned = false;
    })
