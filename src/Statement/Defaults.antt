-- ===== src/Statement/Defaults.antt =====
-- `getCTypeForSQLType` of odbc_impl/ODBCStatement.cc over all the SQL types of types.h, as
-- PopulateFromResultSetMetadata of ODBCDescriptor.cc writes them for either version of ODBC.
use gizmosql_odbc_driver.Prelude.{◌≡◌, refl, Bool, true, false}
use gizmosql_odbc_driver.Prelude.Int.{ℤ}
use gizmosql_odbc_driver.Exceptions.{Outcome, returns, throws, faults}
use gizmosql_odbc_driver.Types.{SqlDataType, sql_code}
use gizmosql_odbc_driver.Descriptor.Metadata.{get_sql_type_for_odbc_version}
use gizmosql_odbc_driver.Statement.CType.{c_type_of}

abbrev pub succeeds {ℓ} : {A : Type ℓ} → Outcome A → Bool
succeeds (returns a) = true
succeeds (throws e) = false
succeeds faults = false

-- DECIMAL, NUMERIC, BIT and GUID are missing from the switch.
unfoldable pub has_c_type : SqlDataType → Bool
has_c_type SqlDataType.decimal = false
has_c_type SqlDataType.numeric = false
has_c_type SqlDataType.bit = false
has_c_type SqlDataType.guid = false
has_c_type _ = true

-- SQL_C_DEFAULT finds a C type for a column of every SQL type but DECIMAL, NUMERIC, BIT and GUID,
-- and the same one whether the column's type is written with the codes of ODBC 2 or of ODBC 3.
pub c_type_of-has_c_type :
    (t : SqlDataType) (is_unsigned : ℤ)
    → (succeeds (c_type_of (get_sql_type_for_odbc_version (sql_code t) true) is_unsigned)
        ≡ has_c_type t)
      × (c_type_of (get_sql_type_for_odbc_version (sql_code t) true) is_unsigned
          ≡ c_type_of (get_sql_type_for_odbc_version (sql_code t) false) is_unsigned)
unfolding c_type_of get_sql_type_for_odbc_version sql_code has_c_type
c_type_of-has_c_type SqlDataType.char is_unsigned = (refl, refl)
c_type_of-has_c_type SqlDataType.varchar is_unsigned = (refl, refl)
c_type_of-has_c_type SqlDataType.longvarchar is_unsigned = (refl, refl)
c_type_of-has_c_type SqlDataType.wchar is_unsigned = (refl, refl)
c_type_of-has_c_type SqlDataType.wvarchar is_unsigned = (refl, refl)
c_type_of-has_c_type SqlDataType.wlongvarchar is_unsigned = (refl, refl)
c_type_of-has_c_type SqlDataType.decimal is_unsigned = (refl, refl)
c_type_of-has_c_type SqlDataType.numeric is_unsigned = (refl, refl)
c_type_of-has_c_type SqlDataType.smallint is_unsigned = (refl, refl)
c_type_of-has_c_type SqlDataType.integer is_unsigned = (refl, refl)
c_type_of-has_c_type SqlDataType.real is_unsigned = (refl, refl)
c_type_of-has_c_type SqlDataType.float is_unsigned = (refl, refl)
c_type_of-has_c_type SqlDataType.double is_unsigned = (refl, refl)
c_type_of-has_c_type SqlDataType.bit is_unsigned = (refl, refl)
c_type_of-has_c_type SqlDataType.tinyint is_unsigned = (refl, refl)
c_type_of-has_c_type SqlDataType.bigint is_unsigned = (refl, refl)
c_type_of-has_c_type SqlDataType.binary is_unsigned = (refl, refl)
c_type_of-has_c_type SqlDataType.varbinary is_unsigned = (refl, refl)
c_type_of-has_c_type SqlDataType.longvarbinary is_unsigned = (refl, refl)
c_type_of-has_c_type SqlDataType.type_date is_unsigned = (refl, refl)
c_type_of-has_c_type SqlDataType.type_time is_unsigned = (refl, refl)
c_type_of-has_c_type SqlDataType.type_timestamp is_unsigned = (refl, refl)
c_type_of-has_c_type SqlDataType.interval_month is_unsigned = (refl, refl)
c_type_of-has_c_type SqlDataType.interval_year is_unsigned = (refl, refl)
c_type_of-has_c_type SqlDataType.interval_year_to_month is_unsigned = (refl, refl)
c_type_of-has_c_type SqlDataType.interval_day is_unsigned = (refl, refl)
c_type_of-has_c_type SqlDataType.interval_hour is_unsigned = (refl, refl)
c_type_of-has_c_type SqlDataType.interval_minute is_unsigned = (refl, refl)
c_type_of-has_c_type SqlDataType.interval_second is_unsigned = (refl, refl)
c_type_of-has_c_type SqlDataType.interval_day_to_hour is_unsigned = (refl, refl)
c_type_of-has_c_type SqlDataType.interval_day_to_minute is_unsigned = (refl, refl)
c_type_of-has_c_type SqlDataType.interval_day_to_second is_unsigned = (refl, refl)
c_type_of-has_c_type SqlDataType.interval_hour_to_minute is_unsigned = (refl, refl)
c_type_of-has_c_type SqlDataType.interval_hour_to_second is_unsigned = (refl, refl)
c_type_of-has_c_type SqlDataType.interval_minute_to_second is_unsigned = (refl, refl)
c_type_of-has_c_type SqlDataType.guid is_unsigned = (refl, refl)
