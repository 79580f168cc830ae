-- ===== src/Handle.antt =====
-- odbcabstraction/include/odbcabstraction/odbc_impl/ODBCHandle.h: how a call on a handle turns a
-- body that may throw into a return code. The body sees the diagnostics and returns them changed.
pub mod Outcome
use gizmosql_odbc_driver.Prelude.{
  String, Bool, true, false, Option, none, some, ◌&&◌, if◌then◌else◌,
}
use gizmosql_odbc_driver.Exceptions.{
  Exception, DriverException, driver, bad_alloc, standard, unknown, general_error, Result, ok, err,
}
use gizmosql_odbc_driver.Diagnostics.{Diagnostics, clear, add_error, has_error, has_warning}

-- SQLRETURN
pub data ReturnCode : Type 0 where
  success success_with_info error no_data invalid_handle need_data still_executing : ReturnCode

abbrev pub Body : Type 0
Body = Diagnostics → Diagnostics × Result ReturnCode

-- SQL_SUCCEEDED
abbrev pub succeeded : ReturnCode → Bool
succeeded success = true
succeeded success_with_info = true
succeeded _ = false

-- What each catch clause of `execute` records.
abbrev pub caught : Exception → DriverException
caught (driver e) = e
caught bad_alloc = record {
  msg_text = "A memory allocation error occurred.";
  sql_state = "HY001";
  native_error = general_error;
}
caught (standard what) = record {
  msg_text = what;
  sql_state = "HY000";
  native_error = general_error;
}
caught unknown = record {
  msg_text = "An unknown error occurred.";
  sql_state = "HY000";
  native_error = general_error;
}

-- The code after the `try` block.
unfoldable pub return_code : Diagnostics → ReturnCode → ReturnCode
unfolding has_error has_warning
return_code d rc =
    if has_error d then error else if succeeded rc && has_warning d then success_with_info else rc

-- `rc` is the code given by the caller; it stands if the body throws.
abbrev settle : ReturnCode → Diagnostics × Result ReturnCode → Diagnostics × ReturnCode
settle rc (d, ok r) = (d, return_code d r)
settle rc (d, err e) = (add_error d (caught e), return_code (add_error d (caught e)) rc)

unfoldable pub execute : ReturnCode → Body → Diagnostics → Diagnostics × ReturnCode
unfolding return_code add_error clear
execute rc function d = settle rc (function (clear d))

-- A null handle; the lock around `execute` is not modelled.
unfoldable pub execute_with_diagnostics :
    ReturnCode → Body → Option Diagnostics → Option Diagnostics × ReturnCode
unfolding execute
execute_with_diagnostics rc function none = (none, invalid_handle)
execute_with_diagnostics rc function (some d) = let (d', r) = execute rc function d in (some d', r)
