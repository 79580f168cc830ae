-- ===== src/Statement/CType.antt =====
-- `GetLength` and `getCTypeForSQLType` of odbc_impl/ODBCStatement.cc. The types are the codes of the
-- ODBC headers; the interval types are 101 to 113 under their SQL_C_ and their SQL_ names.
use gizmosql_odbc_driver.Prelude.{ℕ, Bool, false, ◌&&◌, ◌||◌, List, [], ◌∷◌, if◌then◌else◌}
use gizmosql_odbc_driver.Prelude.Int.{ℤ, pos, negsuc, eq_ℤ, leb_ℤ}
use gizmosql_odbc_driver.Prelude.Text.{int_text, ◌+++◌}
use gizmosql_odbc_driver.Exceptions.{driver_exception, Outcome, returns, throws}
use gizmosql_odbc_driver.Descriptor.Record.{DescriptorRecord}

abbrev pub is_one_of : ℤ → List ℤ → Bool
is_one_of z [] = false
is_one_of z (x ∷ xs) = eq_ℤ z x || is_one_of z xs

abbrev pub is_interval : ℤ → Bool
is_interval z = leb_ℤ (pos 101) z && leb_ℤ z (pos 113)

-- The size of a bound buffer: the structures have 19, 6, 6, 16 and 28 bytes.
unfoldable pub get_length : DescriptorRecord → ℕ
get_length r =
    if is_one_of r.type (pos 1 ∷ negsuc 7 ∷ negsuc 1 ∷ [])
    then r.length
    else if is_one_of r.type (negsuc 6 ∷ negsuc 5 ∷ negsuc 25 ∷ negsuc 27 ∷ [])
    then 1
    else if is_one_of r.type (pos 5 ∷ negsuc 14 ∷ negsuc 16 ∷ [])
    then 2
    else if is_one_of r.type (pos 4 ∷ negsuc 15 ∷ negsuc 17 ∷ pos 7 ∷ [])
    then 4
    else if is_one_of r.type (negsuc 24 ∷ negsuc 26 ∷ pos 8 ∷ [])
    then 8
    else if is_one_of r.type (pos 2 ∷ [])
    then 19
    else if is_one_of r.type (pos 9 ∷ pos 91 ∷ pos 10 ∷ pos 92 ∷ [])
    then 6
    else if is_one_of r.type (pos 11 ∷ pos 93 ∷ [])
    then 16
    else if is_interval r.type
    then 28
    else r.length

-- `record.m_unsigned ? … : …`
abbrev pub by_sign : ℤ → ℤ → ℤ → ℤ
by_sign is_unsigned unsigned signed = if eq_ℤ is_unsigned (pos 0) then signed else unsigned

-- The switch, on `m_conciseType` and `m_unsigned`.
unfoldable pub c_type_of : ℤ → ℤ → Outcome ℤ
c_type_of concise is_unsigned =
    if is_one_of concise (pos 1 ∷ pos 12 ∷ negsuc 0 ∷ [])
    then returns (pos 1)
    else if is_one_of concise (negsuc 7 ∷ negsuc 8 ∷ negsuc 9 ∷ [])
    then returns (negsuc 7)
    else if is_one_of concise (negsuc 1 ∷ negsuc 2 ∷ negsuc 3 ∷ [])
    then returns (negsuc 1)
    else if is_one_of concise (negsuc 5 ∷ [])
    then returns (by_sign is_unsigned (negsuc 27) (negsuc 25))
    else if is_one_of concise (pos 5 ∷ [])
    then returns (by_sign is_unsigned (negsuc 16) (negsuc 14))
    else if is_one_of concise (pos 4 ∷ [])
    then returns (by_sign is_unsigned (negsuc 17) (negsuc 15))
    else if is_one_of concise (negsuc 4 ∷ [])
    then returns (by_sign is_unsigned (negsuc 26) (negsuc 24))
    else if is_one_of concise (pos 7 ∷ [])
    then returns (pos 7)
    else if is_one_of concise (pos 6 ∷ pos 8 ∷ [])
    then returns (pos 8)
    else if is_one_of concise (pos 9 ∷ pos 91 ∷ [])
    then returns (pos 91)
    else if is_one_of concise (pos 10 ∷ pos 92 ∷ [])
    then returns (pos 92)
    else if is_one_of concise (pos 11 ∷ pos 93 ∷ [])
    then returns (pos 93)
    else if is_interval concise
    then returns concise
    else throws (driver_exception ("Unknown SQL type: " +++ int_text concise) "HY003")

unfoldable pub get_c_type_for_sql_type : DescriptorRecord → Outcome ℤ
unfolding c_type_of
get_c_type_for_sql_type r = c_type_of r.concise_type r.unsigned
