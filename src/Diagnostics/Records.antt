-- ===== src/Diagnostics/Records.antt =====
-- The records that the pointers lead to, over any history of calls.
use gizmosql_odbc_driver.Prelude.{
  ℕ, suc, zero, ◌-◌, ◌<◌, String, ◌≡◌, refl, inl, inr, Bool, true, false, not, Option, none, some,
  List, [], ◌∷◌, ◌++◌, arith, length, get_elem?, ltb, ge→ltb, ltb→lt, Bool-cases,
  get_elem?-append_left, get_elem?-append_last, get_elem?-none,
}
use gizmosql_odbc_driver.Exceptions.{DriverException}
use gizmosql_odbc_driver.Diagnostics.{
  Diagnostics, DiagnosticsRecord, RecordRef, owned, truncation, OdbcVersion, init, is_warning,
  starts_with, resolve, add_record, add_warning, add_error, add_truncation_warning, clear,
  get_record_at_index, has_record,
}

-- A record that is there, of the given class.
abbrev pub HasClass : Bool → Option DiagnosticsRecord → Type 0
HasClass b none = ⊥
HasClass b (some r) = is_warning r.sql_state ≡ b

abbrev pub AllHaveClass : Bool → List DiagnosticsRecord → List RecordRef → Type 0
AllHaveClass b records [] = Unit
AllHaveClass b records (r ∷ rs) = HasClass b (resolve records r) × AllHaveClass b records rs

pub record IsValid (d : Diagnostics) : Type 0 where
  pub errors : AllHaveClass false d.owned_records d.error_records
  pub warnings : AllHaveClass true d.owned_records d.warning_records

HasClass-resolve-append :
    (b : Bool) (records : List DiagnosticsRecord) (new : DiagnosticsRecord) (r : RecordRef)
    → HasClass b (resolve records r)
    → HasClass b (resolve (records ++ new ∷ []) r)
unfolding resolve
HasClass-resolve-append b records new truncation h = h
HasClass-resolve-append b records new (owned k) h = elim (Bool-cases (ltb k (length records))) [
  | inl e ↦ rw (get_elem?-append_left records (new ∷ []) k (ltb→lt _ _ e)) h
  | inr e ↦ absurd (rw (get_elem?-none records k (ground arith)) at h)
]

-- Growing the vector of owned records leaves every pointer valid.
AllHaveClass-append :
    (b : Bool) (records : List DiagnosticsRecord) (new : DiagnosticsRecord) (rs : List RecordRef)
    → AllHaveClass b records rs
    → AllHaveClass b (records ++ new ∷ []) rs
AllHaveClass-append b records new [] h = tt
AllHaveClass-append b records new (r ∷ rs) h =
    (HasClass-resolve-append b records new r h.0, AllHaveClass-append b records new rs h.1)

AllHaveClass-snoc :
    (b : Bool) (records : List DiagnosticsRecord) (rs : List RecordRef) (r : RecordRef)
    → AllHaveClass b records rs
    → HasClass b (resolve records r)
    → AllHaveClass b records (rs ++ r ∷ [])
AllHaveClass-snoc b records [] r h k = (k, tt)
AllHaveClass-snoc b records (x ∷ rs) r h k = (h.0, AllHaveClass-snoc b records rs r h.1 k)

resolve_new :
    (b : Bool) (records : List DiagnosticsRecord) (new : DiagnosticsRecord)
    → is_warning new.sql_state ≡ b
    → HasClass b (resolve (records ++ new ∷ []) (owned (length records)))
unfolding resolve
resolve_new b records new h = rw (get_elem?-append_last records new) h

pub add_record-IsValid :
    (d : Diagnostics) (new : DiagnosticsRecord) → IsValid d → IsValid (add_record d new)
unfolding add_record
add_record-IsValid d new v = elim (Bool-cases (is_warning new.sql_state)) [
  | inl w ↦
      rw (w, add_record)
        (record {
          errors = AllHaveClass-append false d.owned_records new d.error_records v.errors;
          warnings =
              AllHaveClass-snoc true _ d.warning_records _
                (AllHaveClass-append true d.owned_records new d.warning_records v.warnings)
                (resolve_new true d.owned_records new w);
        })
  | inr w ↦
      rw (w, add_record)
        (record {
          errors =
              AllHaveClass-snoc false _ d.error_records _
                (AllHaveClass-append false d.owned_records new d.error_records v.errors)
                (resolve_new false d.owned_records new w);
          warnings = AllHaveClass-append true d.owned_records new d.warning_records v.warnings;
        })
]

-- The calls that change the diagnostics of a handle.
pub data Call : Type 0 where
  adds_error : DriverException → Call
  adds_warning : String → String → ℕ → Call
  adds_truncation clears : Call

unfoldable pub step : Diagnostics → Call → Diagnostics
step d (adds_error e) = add_error d e
step d (adds_warning message state native) = add_warning d message state native
step d adds_truncation = add_truncation_warning d
step d clears = clear d

unfoldable pub run : Diagnostics → List Call → Diagnostics
run d [] = d
run d (c ∷ cs) = run (step d c) cs

pub step-IsValid : (d : Diagnostics) (c : Call) → IsValid d → IsValid (step d c)
unfolding step
step-IsValid d (adds_error e) v = unfold add_error in add_record-IsValid d _ v
step-IsValid d (adds_warning m s n) v = unfold add_warning in add_record-IsValid d _ v
step-IsValid d adds_truncation v =
    unfold add_truncation_warning resolve starts_with in
    record {
      errors = v.errors;
      warnings = AllHaveClass-snoc true _ d.warning_records truncation v.warnings refl;
    }
step-IsValid d clears v = unfold clear in record { errors = tt; warnings = tt }

pub run-IsValid : (d : Diagnostics) (cs : List Call) → IsValid d → IsValid (run d cs)
unfolding run
run-IsValid d [] v = v
run-IsValid d (c ∷ cs) v = run-IsValid (step d c) cs (step-IsValid d c v)

AllHaveClass-get_elem? :
    (b : Bool) (records : List DiagnosticsRecord) (rs : List RecordRef) (i : ℕ)
    → AllHaveClass b records rs
    → i < length rs
    → (r : RecordRef) × (get_elem? rs i ≡ some r) × HasClass b (resolve records r)
AllHaveClass-get_elem? b records [] i h lt = absurd (omega arith)
AllHaveClass-get_elem? b records (r ∷ rs) zero h lt = (r, refl, h.0)
AllHaveClass-get_elem? b records (r ∷ rs) (suc i) h lt =
    AllHaveClass-get_elem? b records rs i h.1 (omega arith)

-- In a valid state, index `i` finds an error below the number of errors, and from there on a
-- warning, up to the record count.
pub get_record_at_index-IsValid :
    (d : Diagnostics) (i : ℕ)
    → IsValid d
    → has_record d i ≡ true
    → HasClass (not (ltb i (length d.error_records))) (get_record_at_index d i)
unfolding get_record_at_index has_record
get_record_at_index-IsValid d i v h = elim (Bool-cases (ltb i (length d.error_records))) [
  | inl e ↦
      let (r, at, class) =
        AllHaveClass-get_elem? false d.owned_records d.error_records i v.errors (ltb→lt _ _ e) in
      rw (e, at, get_record_at_index) class
  | inr e ↦
      let (r, at, class) =
        AllHaveClass-get_elem? true d.owned_records d.warning_records (i - length d.error_records)
          v.warnings (ground arith) in
      rw (e, at, get_record_at_index) class
]

-- Whatever calls a handle has seen, `HasRecord` is right about which indices `GetRecordAtIndex`
-- can serve: each of them finds a record, through a pointer that is still good, the errors come
-- first and the warnings after them; and at any other index there is none.
pub records_after_run :
    (vendor component : String) (version : OdbcVersion) (cs : List Call) (i : ℕ)
    → let d = run (init vendor component version) cs in
      (has_record d i ≡ true
        → HasClass (not (ltb i (length d.error_records))) (get_record_at_index d i))
      × (has_record d i ≡ false → get_record_at_index d i ≡ none)
unfolding get_record_at_index has_record
records_after_run vendor component version cs i =
    let d = run (init vendor component version) cs in
    (
      get_record_at_index-IsValid d i
          (run-IsValid (init vendor component version) cs (record { errors = tt; warnings = tt })),
      λ h.
          rw
            (
              ge→ltb i (length d.error_records) (ground arith),
              get_elem?-none d.warning_records (i - length d.error_records) (ground arith),
              get_record_at_index,
            )
            refl,
    )
