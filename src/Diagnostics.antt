-- ===== src/Diagnostics.antt =====
-- odbcabstraction/diagnostics.cc and include/odbcabstraction/diagnostics.h.
-- The vectors of pointers hold references: into `owned_records`, by position, or to the one
-- static truncation record. Every reference is looked up, so a dangling one would show.
pub mod State
pub mod Records
use Prim.Native.Char.{code}
use gizmosql_odbc_driver.Prelude.{
  ℕ, ◌+◌, ◌-◌, String, Bool, true, false, not, ◌&&◌, Option, none, some, List, [], ◌∷◌, ◌++◌,
  length, get_elem?, ltb, ◌==◌, if◌then◌else◌,
}
use gizmosql_odbc_driver.Exceptions.{DriverException, truncation_warning}

pub data OdbcVersion : Type 0 where
  v_2 v_3 v_4 : OdbcVersion

pub record DiagnosticsRecord : Type 0 where
  pub msg_text : String
  pub sql_state : String
  pub native_error : ℕ

pub data RecordRef : Type 0 where
  owned : ℕ → RecordRef
  truncation : RecordRef

pub record Diagnostics : Type 0 where
  pub error_records : List RecordRef
  pub warning_records : List RecordRef
  pub owned_records : List DiagnosticsRecord
  pub vendor : String
  pub data_source_component : String
  pub version : OdbcVersion

abbrev pub init : String → String → OdbcVersion → Diagnostics
init vendor component version = record {
  error_records = [];
  warning_records = [];
  owned_records = [];
  vendor = vendor;
  data_source_component = component;
  version = version;
}

abbrev pub truncation_record : DiagnosticsRecord
truncation_record = record {
  msg_text = "String or binary data, right-truncated.";
  sql_state = "01004";
  native_error = truncation_warning;
}

-- The two tests read `sql_state[0]` and `sql_state[1]`; a missing character is the terminator.
unfoldable pub starts_with : ℕ → ℕ → String → Bool
starts_with a b (String.◌∷◌ c (String.◌∷◌ d s)) = code c == a && code d == b
starts_with a b s = false

unfoldable pub rewrite_sql_state_for_odbc2 : String → String
rewrite_sql_state_for_odbc2 (String.◌∷◌ c (String.◌∷◌ d s)) =
    if code c == b'H' && code d == b'Y'
    then String.◌∷◌ "S" (String.◌∷◌ "1" s)
    else String.◌∷◌ c (String.◌∷◌ d s)
rewrite_sql_state_for_odbc2 s = s

-- SQLSTATE class 01 is a warning.
abbrev pub is_warning : String → Bool
is_warning = starts_with b'0' b'1'

-- `TrackRecord` of the record that `push_back` is about to own, at the next position.
unfoldable pub track_record : Diagnostics → DiagnosticsRecord → Diagnostics
track_record d r =
    if is_warning r.sql_state
    then record d { warning_records = d.warning_records ++ owned (length d.owned_records) ∷ [] }
    else record d { error_records = d.error_records ++ owned (length d.owned_records) ∷ [] }

abbrev pub is_v2 : OdbcVersion → Bool
is_v2 v_2 = true
is_v2 v_3 = false
is_v2 v_4 = false

unfoldable pub make_record : OdbcVersion → String → String → ℕ → DiagnosticsRecord
make_record version message state native = record {
  msg_text = message;
  sql_state = (if is_v2 version then rewrite_sql_state_for_odbc2 state else state);
  native_error = native;
}

unfoldable pub add_record : Diagnostics → DiagnosticsRecord → Diagnostics
unfolding track_record
add_record d r = record (track_record d r) { owned_records = d.owned_records ++ r ∷ [] }

unfoldable pub add_warning : Diagnostics → String → String → ℕ → Diagnostics
unfolding add_record make_record
add_warning d message state native = add_record d (make_record d.version message state native)

unfoldable pub add_error : Diagnostics → DriverException → Diagnostics
unfolding add_record make_record
add_error d e = add_record d (make_record d.version e.msg_text e.sql_state e.native_error)

unfoldable pub add_truncation_warning : Diagnostics → Diagnostics
add_truncation_warning d = record d { warning_records = d.warning_records ++ truncation ∷ [] }

unfoldable pub clear : Diagnostics → Diagnostics
clear d = record d { error_records = []; warning_records = []; owned_records = [] }

abbrev pub is_empty {ℓ} : {A : Type ℓ} → List A → Bool
is_empty [] = true
is_empty (x ∷ xs) = false

unfoldable pub has_error : Diagnostics → Bool
has_error d = not (is_empty d.error_records)

unfoldable pub has_warning : Diagnostics → Bool
has_warning d = not (is_empty d.warning_records)

unfoldable pub get_record_count : Diagnostics → ℕ
get_record_count d = length d.error_records + length d.warning_records

unfoldable pub has_record : Diagnostics → ℕ → Bool
has_record d i = ltb i (length d.error_records + length d.warning_records)

-- Follow a pointer.
unfoldable pub resolve : List DiagnosticsRecord → RecordRef → Option DiagnosticsRecord
resolve records (owned k) = get_elem? records k
resolve records truncation = some truncation_record

abbrev resolve? : List DiagnosticsRecord → Option RecordRef → Option DiagnosticsRecord
resolve? records none = none
resolve? records (some r) = resolve records r

-- `none` stands for a read past the end of a vector or through a dangling pointer.
unfoldable pub get_record_at_index : Diagnostics → ℕ → Option DiagnosticsRecord
unfolding resolve
get_record_at_index d i = resolve? d.owned_records (
    if ltb i (length d.error_records)
    then get_elem? d.error_records i
    else get_elem? d.warning_records (i - length d.error_records))
