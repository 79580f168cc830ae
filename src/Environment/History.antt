-- ===== src/Environment/History.antt =====
-- What the environment of odbc_impl/ODBCEnvironment.cc holds after any calls.
use gizmosql_odbc_driver.Prelude.{
  ℕ, ◌+◌, ◌-◌, String, ◌≡◌, refl, ap, ◌∙◌, Bool, true, false, List, [], ◌∷◌, ◌==◌, if◌then◌else◌,
  arith, Bool-cases, inl, inr,
}
use gizmosql_odbc_driver.Diagnostics.{
  Diagnostics, DiagnosticsRecord, add_error, add_warning, add_truncation_warning, clear, add_record,
  track_record, is_warning, make_record,
}
use gizmosql_odbc_driver.Diagnostics.Records
use gizmosql_odbc_driver.Statement.Registration.{count, count-append, one_if}
use gizmosql_odbc_driver.Descriptor.{erase}
use gizmosql_odbc_driver.Environment.{
  Environment, diagnostics_version, new_environment, set_odbc_version, set_connection_pooling,
  create_connection, drop_connection,
}

-- A call of the environment; `reports` is one of its diagnostics.
pub data Call : Type 0 where
  sets_version : ℕ → Call
  sets_pooling : ℕ → Call
  creates : ℕ → Call
  drops : ℕ → Call
  reports : Records.Call → Call

unfoldable pub apply : Environment → Call → Environment
unfolding set_odbc_version drop_connection Records.step
apply e (sets_version v) = set_odbc_version e v
apply e (sets_pooling p) = set_connection_pooling e p
apply e (creates c) = create_connection e c
apply e (drops c) = drop_connection e c
apply e (reports r) = record e { diagnostics = Records.step e.diagnostics r }

unfoldable pub run_calls : Environment → List Call → Environment
unfolding apply
run_calls e [] = e
run_calls e (c ∷ cs) = run_calls (apply e c) cs

-- Whether the last call about a connection created it.
unfoldable pub is_open : ℕ → Bool → List Call → Bool
is_open a opened [] = opened
is_open a opened (sets_version v ∷ cs) = is_open a opened cs
is_open a opened (sets_pooling p ∷ cs) = is_open a opened cs
is_open a opened (creates c ∷ cs) = is_open a (if c == a then true else opened) cs
is_open a opened (drops c ∷ cs) = is_open a (if c == a then false else opened) cs
is_open a opened (reports r ∷ cs) = is_open a opened cs

-- No connection is created at the address of one that is open.
unfoldable pub AreFresh : List Call → (ℕ → Bool) → Type 0
AreFresh [] opened = Unit
AreFresh (sets_version v ∷ cs) opened = AreFresh cs opened
AreFresh (sets_pooling p ∷ cs) opened = AreFresh cs opened
AreFresh (creates c ∷ cs) opened =
    (opened c ≡ false) × AreFresh cs (λ a. if c == a then true else opened a)
AreFresh (drops c ∷ cs) opened = AreFresh cs (λ a. if c == a then false else opened a)
AreFresh (reports r ∷ cs) opened = AreFresh cs opened

set_odbc_version-connections :
    (e : Environment) (v : ℕ) → (set_odbc_version e v).connections ≡ e.connections
unfolding set_odbc_version
set_odbc_version-connections e v = elim (Bool-cases (v == e.version)) [
  | inl h ↦ rw h
  | inr h ↦ rw h
]

after_create :
    (c a : ℕ) (o : ℕ → Bool) (n : ℕ)
    → n ≡ one_if (o a)
    → o c ≡ false
    → n + ((if c == a then 1 else 0) + 0) ≡ one_if (if c == a then true else o a)
after_create c a o n h fresh = ground arith

after_drop :
    (c a n : ℕ) (o : Bool)
    → n ≡ one_if o
    → (if c == a then n - 1 else n) ≡ one_if (if c == a then false else o)
after_drop c a n o h = ground arith

count_other :
    (a c : ℕ) (xs : List ℕ) → count a (erase c xs) ≡ (if c == a then count a xs - 1 else count a xs)
unfolding count erase
count_other a c [] = ground arith
count_other a c (x ∷ xs) = ground (arith, count_other a c xs)

-- The count of a connection in the list follows the last call about it.
count-run_calls :
    (e : Environment) (cs : List Call) (opened : ℕ → Bool)
    → ((a : ℕ) → count a e.connections ≡ one_if (opened a))
    → AreFresh cs opened
    → (a : ℕ) → count a (run_calls e cs).connections ≡ one_if (is_open a (opened a) cs)
unfolding run_calls is_open AreFresh apply drop_connection count
count-run_calls e [] opened h fresh a = h a
count-run_calls e (sets_version v ∷ cs) opened h fresh a =
    count-run_calls (set_odbc_version e v) cs opened
      (λ b. ap (count b) (set_odbc_version-connections e v) ∙ h b) fresh a
count-run_calls e (sets_pooling p ∷ cs) opened h fresh a =
    count-run_calls (set_connection_pooling e p) cs opened h fresh a
count-run_calls e (creates c ∷ cs) opened h (closed, fresh) a =
    count-run_calls (create_connection e c) cs _
      (λ b.
        count-append b e.connections (c ∷ [])
        ∙ after_create c b opened (count b e.connections) (h b) closed)
      fresh a
count-run_calls e (drops c ∷ cs) opened h fresh a =
    count-run_calls (drop_connection e c) cs _
      (λ b. count_other b c e.connections ∙ after_drop c b (count b e.connections) (opened b) (h b))
      fresh a
count-run_calls e (reports r ∷ cs) opened h fresh a =
    count-run_calls (record e { diagnostics = Records.step e.diagnostics r }) cs opened h fresh a

track_record-version :
    (d : Diagnostics) (r : DiagnosticsRecord) → (track_record d r).version ≡ d.version
unfolding track_record
track_record-version d r = elim (Bool-cases (is_warning r.sql_state)) [
  | inl h ↦ rw h
  | inr h ↦ rw h
]

step-version : (d : Diagnostics) (c : Records.Call) → (Records.step d c).version ≡ d.version
unfolding Records.step add_error add_warning add_truncation_warning clear add_record
step-version d (Records.adds_error x) =
    track_record-version d (make_record d.version x.msg_text x.sql_state x.native_error)
step-version d (Records.adds_warning m s n) = track_record-version d (make_record d.version m s n)
step-version d Records.adds_truncation = refl
step-version d Records.clears = refl

-- The diagnostics rewrite states for the version that the environment has.
IsInStep : Environment → Type 0
IsInStep e = e.diagnostics.version ≡ diagnostics_version e.version

set_odbc_version-IsInStep : (e : Environment) (v : ℕ) → IsInStep e → IsInStep (set_odbc_version e v)
unfolding set_odbc_version IsInStep
set_odbc_version-IsInStep e v h = elim (Bool-cases (v == e.version)) [
  | inl same ↦ rw same h
  | inr other ↦ rw other
]

run_calls-IsInStep : (e : Environment) (cs : List Call) → IsInStep e → IsInStep (run_calls e cs)
unfolding run_calls apply IsInStep drop_connection
run_calls-IsInStep e [] h = h
run_calls-IsInStep e (sets_version v ∷ cs) h =
    run_calls-IsInStep (set_odbc_version e v) cs (set_odbc_version-IsInStep e v h)
run_calls-IsInStep e (sets_pooling p ∷ cs) h = run_calls-IsInStep (set_connection_pooling e p) cs h
run_calls-IsInStep e (creates c ∷ cs) h = run_calls-IsInStep (create_connection e c) cs h
run_calls-IsInStep e (drops c ∷ cs) h = run_calls-IsInStep (drop_connection e c) cs h
run_calls-IsInStep e (reports r ∷ cs) h =
    run_calls-IsInStep (record e { diagnostics = Records.step e.diagnostics r }) cs
      (step-version e.diagnostics r ∙ h)

-- After any calls of a new environment, among them calls of its diagnostics, where no connection is
-- created at the address of one that is open: the diagnostics have the ODBC version of the
-- environment, 2 or else 3; and a connection is in the list exactly once if the last call about it
-- created it, and else not at all.
pub run_calls_lem :
    (vendor component : String) (cs : List Call)
    → AreFresh cs (λ a. false)
    → ((run_calls (new_environment vendor component) cs).diagnostics.version
        ≡ diagnostics_version (run_calls (new_environment vendor component) cs).version)
      × ((a : ℕ)
          → count a (run_calls (new_environment vendor component) cs).connections
            ≡ one_if (is_open a false cs))
unfolding IsInStep count
run_calls_lem vendor component cs fresh = (
  run_calls-IsInStep (new_environment vendor component) cs refl,
  count-run_calls (new_environment vendor component) cs (λ a. false) (λ a. refl) fresh,
)
