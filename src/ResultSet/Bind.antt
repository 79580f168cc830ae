-- ===== src/ResultSet/Bind.antt =====
-- `BindColumn` of flight_sql/flight_sql_result_set.cc with `SetBinding` of
-- flight_sql/flight_sql_result_set_column.cc. The count of bindings serves GetData alone.
use gizmosql_odbc_driver.Prelude.{
  ℕ, zero, suc, Bool, Option, none, some, set, get_elem?, length, ltb, ◌==◌, if◌then◌else◌,
}
use gizmosql_odbc_driver.Prelude.Int.{ℤ, pos, eq_ℤ}
use gizmosql_odbc_driver.Exceptions.{Result, ok, err, Outcome, returns, throws, faults, ◌>>=◌}
use gizmosql_odbc_driver.Types.{CDataType, ArrowType}
use gizmosql_odbc_driver.Types.Conversion.{convert_c_data_type_from_v2_to_v3}
use gizmosql_odbc_driver.Types.Arrow.{convert_arrow_type_to_c}
use gizmosql_odbc_driver.ResultSet.{ColumnBinding, ResultSet, deref}

abbrev pub outcome {ℓ} : {A : Type ℓ} → Result A → Outcome A
outcome (ok a) = returns a
outcome (err e) = throws e

-- A precision of zero for SQL_C_NUMERIC, which would always fail, becomes the greatest one.
abbrev pub precision_for : CDataType → ℤ → ℤ
precision_for CDataType.numeric precision = if eq_ℤ precision (pos 0) then pos 38 else precision
precision_for t precision = precision

abbrev pub typed : ColumnBinding → CDataType → ColumnBinding
typed b t = record b { target_type = t; precision = precision_for t b.precision }

-- `to_c` is ConvertArrowTypeToC; SQL_C_DEFAULT takes the type of the column.
abbrev pub resolve :
    (ArrowType → Bool → Result CDataType) → ArrowType → Bool → CDataType → Outcome CDataType
resolve to_c arrow wide CDataType.default = outcome (to_c arrow wide)
resolve to_c arrow wide t = returns t

unfoldable pub set_binding :
    (ArrowType → Bool → Result CDataType) → ColumnBinding → ArrowType → Bool → Outcome ColumnBinding
set_binding to_c b arrow wide = resolve to_c arrow wide b.target_type >>= λ t. returns (typed b t)

abbrev pub put_binding : {C : Type 0} → ResultSet C → ℕ → ColumnBinding → Outcome (ResultSet C)
put_binding s i b = returns (record s { columns = set s.columns i (some b) })

-- `columns_[column_n - 1]` and `schema_->field(column_n - 1)`.
unfoldable pub bind_column :
    {C : Type 0}
    → (ArrowType → ℤ)
    → ResultSet C
    → ℕ
    → ℤ
    → ℤ
    → ℤ
    → ℕ
    → ℕ
    → Option ℕ
    → Outcome (ResultSet C)
unfolding set_binding convert_c_data_type_from_v2_to_v3 convert_arrow_type_to_c
bind_column type_number s zero target_type precision scale buffer buffer_length strlen_buffer =
    faults
bind_column type_number s (suc i) target_type precision scale buffer buffer_length strlen_buffer =
    let b : ColumnBinding = record {
      buffer = buffer;
      strlen_buffer = strlen_buffer;
      buffer_length = buffer_length;
      target_type = convert_c_data_type_from_v2_to_v3 target_type;
      precision = precision;
      scale = scale;
    } in
    let bound = deref (get_elem? s.schema i) >>= λ arrow.
    set_binding (convert_arrow_type_to_c type_number) b arrow s.use_wide_char >>= put_binding s i in
    if ltb i (length s.columns)
    then (if buffer == 0 then returns (record s { columns = set s.columns i none }) else bound)
    else faults
