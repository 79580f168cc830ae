-- ===== src/Examples/Attribute.antt =====
-- Runs of AttributeUtils.h.
use gizmosql_odbc_driver.Prelude.{ℕ, List, [], ◌∷◌, ◌≡◌, refl, some, arith, length}
use gizmosql_odbc_driver.Prelude.Int.{pos}
use gizmosql_odbc_driver.Exceptions.{returns, faults}
use gizmosql_odbc_driver.Handle.{success_with_info}
use gizmosql_odbc_driver.Diagnostics.{Diagnostics, v_3, init}
use gizmosql_odbc_driver.Attribute.{
  Written, smallint, integer, copy_with_nul, len_before_nul, get_attribute_utf8,
  get_attribute_utf8_with_diagnostics,
}
use gizmosql_odbc_driver.Attribute.Utf8.{IsAnswer, get_attribute_utf8-IsAnswer, zero_size_faults}

abbrev fresh : Diagnostics
fresh = init "GizmoData" "" v_3

abbrev name : List ℕ
name = b'g' ∷ b'i' ∷ b'z' ∷ b'm' ∷ b'o' ∷ []

abbrev three_bytes : List ℕ
three_bytes = 9 ∷ 9 ∷ 9 ∷ []

truncated_name :
    get_attribute_utf8 smallint name (some three_bytes) (pos 3)
    ≡ returns (record {
      output = some (b'g' ∷ b'i' ∷ 0 ∷ []);
      output_len = pos 5;
      code = success_with_info;
    })
unfolding get_attribute_utf8 copy_with_nul len_before_nul
truncated_name = refl

get_attribute_utf8-IsAnswer_example :
    (r : Diagnostics × Written) × (get_attribute_utf8_with_diagnostics smallint name
        (some three_bytes)
        (pos (length three_bytes))
        fresh
      ≡ returns r)
    × IsAnswer name three_bytes fresh r
get_attribute_utf8-IsAnswer_example =
    get_attribute_utf8-IsAnswer smallint name three_bytes fresh
      (omega arith, (omega arith, (omega arith, (omega arith, (omega arith, tt))))) (omega arith)
      (omega arith) (omega arith)

zero_size_faults_example : get_attribute_utf8 integer name (some three_bytes) (pos 0) ≡ faults
zero_size_faults_example = zero_size_faults integer name three_bytes (omega arith) (omega arith)
