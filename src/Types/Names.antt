-- ===== src/Types/Names.antt =====
-- `GetTypeNameFromSqlDataType` of flight_sql/utils.cc: the name of a type code of either version.
use gizmosql_odbc_driver.Prelude.{String, if◌then◌else◌}
use gizmosql_odbc_driver.Prelude.Int.{ℤ, pos, negsuc, eq_ℤ}
use gizmosql_odbc_driver.Prelude.Text.{int_text, ◌+++◌}
use gizmosql_odbc_driver.Exceptions.{Result, ok, err, driver_exception}

unfoldable pub get_type_name_from_sql_data_type : ℤ → Result String
get_type_name_from_sql_data_type n =
    if eq_ℤ n (pos 1)
    then ok "CHAR"
    else if eq_ℤ n (pos 12)
    then ok "VARCHAR"
    else if eq_ℤ n (negsuc 0)
    then ok "LONGVARCHAR"
    else if eq_ℤ n (negsuc 7)
    then ok "WCHAR"
    else if eq_ℤ n (negsuc 8)
    then ok "WVARCHAR"
    else if eq_ℤ n (negsuc 9)
    then ok "WLONGVARCHAR"
    else if eq_ℤ n (pos 3)
    then ok "DECIMAL"
    else if eq_ℤ n (pos 2)
    then ok "NUMERIC"
    else if eq_ℤ n (pos 5)
    then ok "SMALLINT"
    else if eq_ℤ n (pos 4)
    then ok "INTEGER"
    else if eq_ℤ n (pos 7)
    then ok "REAL"
    else if eq_ℤ n (pos 6)
    then ok "FLOAT"
    else if eq_ℤ n (pos 8)
    then ok "DOUBLE"
    else if eq_ℤ n (negsuc 6)
    then ok "BIT"
    else if eq_ℤ n (negsuc 5)
    then ok "TINYINT"
    else if eq_ℤ n (negsuc 4)
    then ok "BIGINT"
    else if eq_ℤ n (negsuc 1)
    then ok "BINARY"
    else if eq_ℤ n (negsuc 2)
    then ok "VARBINARY"
    else if eq_ℤ n (negsuc 3)
    then ok "LONGVARBINARY"
    else if eq_ℤ n (pos 91)
    then ok "DATE"
    else if eq_ℤ n (pos 9)
    then ok "DATE"
    else if eq_ℤ n (pos 92)
    then ok "TIME"
    else if eq_ℤ n (pos 10)
    then ok "TIME"
    else if eq_ℤ n (pos 93)
    then ok "TIMESTAMP"
    else if eq_ℤ n (pos 11)
    then ok "TIMESTAMP"
    else if eq_ℤ n (pos 102)
    then ok "INTERVAL_MONTH"
    else if eq_ℤ n (pos 101)
    then ok "INTERVAL_YEAR"
    else if eq_ℤ n (pos 107)
    then ok "INTERVAL_YEAR_TO_MONTH"
    else if eq_ℤ n (pos 103)
    then ok "INTERVAL_DAY"
    else if eq_ℤ n (pos 104)
    then ok "INTERVAL_HOUR"
    else if eq_ℤ n (pos 105)
    then ok "INTERVAL_MINUTE"
    else if eq_ℤ n (pos 106)
    then ok "INTERVAL_SECOND"
    else if eq_ℤ n (pos 108)
    then ok "INTERVAL_DAY_TO_HOUR"
    else if eq_ℤ n (pos 109)
    then ok "INTERVAL_DAY_TO_MINUTE"
    else if eq_ℤ n (pos 110)
    then ok "INTERVAL_DAY_TO_SECOND"
    else if eq_ℤ n (pos 111)
    then ok "INTERVAL_HOUR_TO_MINUTE"
    else if eq_ℤ n (pos 112)
    then ok "INTERVAL_HOUR_TO_SECOND"
    else if eq_ℤ n (pos 113)
    then ok "INTERVAL_MINUTE_TO_SECOND"
    else if eq_ℤ n (negsuc 10)
    then ok "GUID"
    else err (driver_exception ("Unsupported data type: " +++ int_text n) "HY000")
