-- ===== src/Statement/ArdType.antt =====
-- `GetData` of odbc_impl/ODBCStatement.cc with SQL_ARD_TYPE and with SQL_C_DEFAULT, and on a cursor
-- that was closed.
use gizmosql_odbc_driver.Prelude.{
  ℕ, suc, zero, ◌<◌, ◌≡◌, refl, sym, ap, ◌∙◌, false, some, List, [], ◌∷◌, length, get_elem?, ltb,
  if◌then◌else◌, ge→ltb, arith,
}
use gizmosql_odbc_driver.Prelude.Int.{pos, eq_ℤ}
use gizmosql_odbc_driver.Exceptions.{returns, throws, ◌>>=◌}
use gizmosql_odbc_driver.Descriptor.Record.{DescriptorRecord}
use gizmosql_odbc_driver.Statement.{deref}
use gizmosql_odbc_driver.Statement.CType.{get_c_type_for_sql_type}
use gizmosql_odbc_driver.Statement.GetData.{
  Evaluated, evaluate, from_ard, from_ird, of_ard, of_ird, refine, refined, no_column, ard_type,
  c_default,
}

length-get_elem? :
    (records : List DescriptorRecord) (i : ℕ) (r : DescriptorRecord)
    → get_elem? records i ≡ some r
    → i < length records
length-get_elem? [] i r h = absurd (ground arith)
length-get_elem? (x ∷ xs) zero r h = omega arith
length-get_elem? (x ∷ xs) (suc i) r h = omega (arith, length-get_elem? xs i r h)

module _ (ard ird : List DescriptorRecord) (i : ℕ) (r : DescriptorRecord)
    (at : get_elem? ard i ≡ some r) where
  in_ard : ltb (length ard) (suc i) ≡ false
  in_ard = ge→ltb (length ard) (suc i) (omega (arith, length-get_elem? ard i r at))

  refined-some : (e : Evaluated) → refined ard (pos (suc i)) e ≡ refine (some r) e
  refined-some e =
      ap (λ b. if b then e else refine (get_elem? ard i) e) in_ard ∙ ap (λ o. refine o e) at

  from_ird_default :
      (e : Evaluated)
      → e.c_type ≡ c_default
      → from_ird ard ird (pos (suc i)) e
        ≡ (deref (get_elem? ird i) >>= get_c_type_for_sql_type >>= of_ird (refine (some r) e))
  unfolding from_ird
  from_ird_default e h =
      ap
        (λ z.
          if eq_ℤ z c_default
          then deref (get_elem? ird i)
            >>= get_c_type_for_sql_type
            >>= of_ird (refined ard (pos (suc i)) e)
          else returns e)
        h
      ∙ ap (λ e'. deref (get_elem? ird i) >>= get_c_type_for_sql_type >>= of_ird e')
          (refined-some e)

  from_ard-record : from_ard ard (pos (suc i)) ard_type ≡ of_ard r
  unfolding from_ard
  from_ard-record =
      ap (λ b. if b then throws (no_column (pos (suc i))) else deref (get_elem? ard i) >>= of_ard)
        in_ard
      ∙ ap (λ o. deref o >>= of_ard) at

  -- SQL_ARD_TYPE on a column whose record in the row descriptor has SQL_C_DEFAULT is read as
  -- SQL_C_DEFAULT itself is: with the same type, precision and scale, or the same error.
  pub evaluate-ard_type :
      r.concise_type ≡ c_default
      → evaluate ard ird (pos (suc i)) ard_type ≡ evaluate ard ird (pos (suc i)) c_default
  unfolding evaluate from_ard
  evaluate-ard_type default =
      ap (λ x. if ltb (length ird) (suc i) then throws (no_column (pos (suc i))) else x)
        (ap (λ o. o >>= from_ird ard ird (pos (suc i))) from_ard-record
          ∙ from_ird_default _ default
          ∙ sym (
              from_ird_default (record { c_type = c_default; precision = pos 38; scale = pos 0 })
                refl))
