-- ===== src/Handle/Outcome.antt =====
-- What a caller can conclude from the return code of a call on a handle.
use gizmosql_odbc_driver.Prelude.{
  String, ◌≡◌, refl, ◌⊎◌, inl, inr, Bool, true, false, ◌||◌, not, sym, ◌∙◌, arith, List, [], ◌∷◌,
  ◌++◌, if◌then◌else◌, Bool-cases,
}
use gizmosql_odbc_driver.Exceptions.{Exception, DriverException, Result, ok, err}
use gizmosql_odbc_driver.Diagnostics.{
  Diagnostics, clear, add_error, add_record, track_record, make_record, has_error, has_warning,
  is_warning, rewrite_sql_state_for_odbc2, is_v2, is_empty,
}
use gizmosql_odbc_driver.Diagnostics.State.{is_warning-rewrite}
use gizmosql_odbc_driver.Handle.{
  ReturnCode, success, success_with_info, error, Body, succeeded, caught, execute, return_code,
}

is_empty-snoc {ℓ} : {A : Type ℓ} (xs : List A) (x : A) → is_empty (xs ++ x ∷ []) ≡ false
is_empty-snoc [] x = refl
is_empty-snoc (y ∷ xs) x = refl

-- The state under which an exception is recorded has the class that it was thrown with.
is_warning-recorded :
    (b : Bool) (s : String)
    → is_warning (if b then rewrite_sql_state_for_odbc2 s else s) ≡ is_warning s
is_warning-recorded true s = is_warning-rewrite s
is_warning-recorded false s = refl

has_error-add_error :
    (d : Diagnostics) (e : DriverException)
    → is_warning e.sql_state ≡ false
    → has_error (add_error d e) ≡ true
unfolding add_error add_record make_record track_record has_error
has_error-add_error d e h =
    rw (is_warning-recorded (is_v2 d.version) e.sql_state, h, is_empty-snoc) refl

has_warning-add_error :
    (d : Diagnostics) (e : DriverException)
    → is_warning e.sql_state ≡ true
    → (has_warning (add_error d e) ≡ true) × (has_error (add_error d e) ≡ has_error d)
unfolding add_error add_record make_record track_record has_error has_warning
has_warning-add_error d e h =
    rw (is_warning-recorded (is_v2 d.version) e.sql_state, h, is_empty-snoc) (refl, refl)

-- The code of a call whose body threw.
pub execute_threw :
    (rc : ReturnCode) (function : Body) (d d' : Diagnostics) (e : Exception)
    → function (clear d) ≡ (d', err e)
    → (execute rc function d).1 ≡ (
        if not (is_warning (caught e).sql_state) || has_error d'
        then error
        else if succeeded rc
        then success_with_info
        else rc)
unfolding execute return_code
execute_threw rc function d d' e h = elim (Bool-cases (is_warning (caught e).sql_state)) [
  | inl w ↦
      let (warned, same) = has_warning-add_error d' (caught e) w in
      rw (h, execute, w, warned, same) (ground arith)
  | inr w ↦ rw (h, execute, w, has_error-add_error d' (caught e) w) refl
]

-- The code of a call whose body returned `r`.
pub execute_returned :
    (rc : ReturnCode) (function : Body) (d d' : Diagnostics) (r : ReturnCode)
    → function (clear d) ≡ (d', ok r)
    → execute rc function d ≡ (d', return_code d' r)
unfolding execute
execute_returned rc function d d' r h = rw (h, execute) refl

Outcome-cases :
    (out : Diagnostics × Result ReturnCode)
    → ((d : Diagnostics) × (r : ReturnCode) × (out ≡ (d, ok r)))
      ⊎ ((d : Diagnostics) × (e : Exception) × (out ≡ (d, err e)))
Outcome-cases (d, ok r) = inl (d, r, refl)
Outcome-cases (d, err e) = inr (d, e, refl)

return_code_success :
    (d : Diagnostics) (r : ReturnCode)
    → return_code d r ≡ success
    → (r ≡ success) × (has_error d ≡ false) × (has_warning d ≡ false)
unfolding return_code
return_code_success d success h = ground arith
return_code_success d success_with_info h = ground arith
return_code_success d _ h = ground arith

throw_code :
    (rc : ReturnCode) (b : Bool)
    → (if b then error else if succeeded rc then success_with_info else rc) ≡ success
    → ⊥
throw_code success b h = ground arith
throw_code success_with_info b h = ground arith
throw_code _ b h = ground arith

-- Plain SQL_SUCCESS comes back only from a body that did not throw, itself returned SQL_SUCCESS,
-- and left neither an error nor a warning in the diagnostics: an exception, of whatever kind and
-- with whatever code the caller passed in, never looks like success.
pub execute_success :
    (rc : ReturnCode) (function : Body) (d : Diagnostics)
    → (execute rc function d).1 ≡ success
    → let d' = (execute rc function d).0 in
      (function (clear d) ≡ (d', ok success)) × (has_error d' ≡ false) × (has_warning d' ≡ false)
execute_success rc function d h = elim (Outcome-cases (function (clear d))) [
  | inl (d', r, e) ↦
      let done = execute_returned rc function d d' r e in
      let (r_success, no_error, no_warning) = return_code_success d' r (rw done at h) in
      rw (done, e, r_success) (refl, no_error, no_warning)
  | inr (d', x, e) ↦ absurd (throw_code rc _ (sym (execute_threw rc function d d' x e) ∙ h))
]
