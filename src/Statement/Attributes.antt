-- ===== src/Statement/Attributes.antt =====
-- The attributes of odbc_impl/ODBCStatement.cc and `GetStmtAttr`. The ODBC headers define the attributes of
-- asynchronous notification, and give the constants their values.
use gizmosql_odbc_driver.Prelude.{ℕ, Option, none, some}
use gizmosql_odbc_driver.Prelude.Int.{ℤ, pos}
use gizmosql_odbc_driver.Prelude.Text.{int_text, ◌+++◌}
use gizmosql_odbc_driver.Exceptions.{Exception, driver_exception, Outcome, returns, throws, ◌>>=◌}
use gizmosql_odbc_driver.Descriptor.Record.{DescField}
use gizmosql_odbc_driver.Descriptor.GetField.{Value, ulen, pointer, get_header_field}
use gizmosql_odbc_driver.Statement.{Memory, deref}
use gizmosql_odbc_driver.Statement.Cursor.{Handle, Spi, AttributeId}

-- The identifiers of the two switches, without the prefix SQL_ATTR_.
pub data StatementAttribute : Type 0 where
  app_param_desc app_row_desc imp_param_desc imp_row_desc : StatementAttribute
  param_bind_offset_ptr param_bind_type param_operation_ptr param_status_ptr : StatementAttribute
  params_processed_ptr paramset_size row_array_size row_bind_offset_ptr : StatementAttribute
  row_bind_type row_operation_ptr row_status_ptr rows_fetched_ptr : StatementAttribute
  async_enable async_stmt_event async_stmt_pcallback async_stmt_pcontext : StatementAttribute
  cursor_scrollable cursor_sensitivity cursor_type enable_auto_ipd : StatementAttribute
  fetch_bookmark_ptr keyset_size row_number simulate_cursor use_bookmarks : StatementAttribute
  concurrency max_rows retrieve_data rowset_size : StatementAttribute
  max_length metadata_id noscan query_timeout : StatementAttribute
  -- any other identifier
  other : ℤ → StatementAttribute

abbrev pub unsupported : Exception
unsupported = driver_exception "Unsupported attribute" "HYC00"

abbrev pub invalid_statement_attribute : ℤ → Exception
invalid_statement_attribute n =
    driver_exception ("Invalid statement attribute: " +++ int_text n) "HY092"

-- A header field of the descriptor at an address.
abbrev pub header_at : Memory → ℕ → DescField → Outcome Value
header_at m a field = deref (m.descriptor a) >>= λ d. get_header_field d field

-- The optional value that the part below has for an attribute of its own.
abbrev pub spi_value : ℤ → Option ℕ → Outcome Value
spi_value number none = throws (invalid_statement_attribute number)
spi_value number (some v) = returns (ulen v)

module _ {S R : Type 0} (spi : Spi S R) where
  unfoldable pub get_stmt_attr : Handle S R → StatementAttribute → Outcome Value
  unfolding get_header_field
  get_stmt_attr h StatementAttribute.app_param_desc = returns (pointer h.statement.current_apd)
  get_stmt_attr h StatementAttribute.app_row_desc = returns (pointer h.statement.current_ard)
  get_stmt_attr h StatementAttribute.imp_param_desc = returns (pointer h.statement.ipd)
  get_stmt_attr h StatementAttribute.imp_row_desc = returns (pointer h.statement.ird)
  get_stmt_attr h StatementAttribute.param_bind_offset_ptr =
      header_at h.memory h.statement.current_apd DescField.bind_offset_ptr
  get_stmt_attr h StatementAttribute.param_bind_type =
      header_at h.memory h.statement.current_apd DescField.bind_type
  get_stmt_attr h StatementAttribute.param_operation_ptr =
      header_at h.memory h.statement.current_apd DescField.array_status_ptr
  get_stmt_attr h StatementAttribute.param_status_ptr =
      header_at h.memory h.statement.ipd DescField.array_status_ptr
  get_stmt_attr h StatementAttribute.params_processed_ptr =
      header_at h.memory h.statement.ipd DescField.rows_processed_ptr
  get_stmt_attr h StatementAttribute.paramset_size =
      header_at h.memory h.statement.current_apd DescField.array_size
  get_stmt_attr h StatementAttribute.row_array_size =
      header_at h.memory h.statement.current_ard DescField.array_size
  get_stmt_attr h StatementAttribute.row_bind_offset_ptr =
      header_at h.memory h.statement.current_ard DescField.bind_offset_ptr
  get_stmt_attr h StatementAttribute.row_bind_type =
      header_at h.memory h.statement.current_ard DescField.bind_type
  get_stmt_attr h StatementAttribute.row_operation_ptr =
      header_at h.memory h.statement.current_ard DescField.array_status_ptr
  get_stmt_attr h StatementAttribute.row_status_ptr =
      header_at h.memory h.statement.ird DescField.array_status_ptr
  get_stmt_attr h StatementAttribute.rows_fetched_ptr =
      header_at h.memory h.statement.ird DescField.rows_processed_ptr
  get_stmt_attr h StatementAttribute.async_enable = returns (ulen 0)
  get_stmt_attr h StatementAttribute.cursor_scrollable = returns (ulen 0)
  get_stmt_attr h StatementAttribute.cursor_sensitivity = returns (ulen 0)
  get_stmt_attr h StatementAttribute.cursor_type = returns (ulen 0)
  get_stmt_attr h StatementAttribute.enable_auto_ipd = returns (ulen 0)
  get_stmt_attr h StatementAttribute.keyset_size = returns (ulen 0)
  get_stmt_attr h StatementAttribute.simulate_cursor = returns (ulen 2)
  get_stmt_attr h StatementAttribute.use_bookmarks = returns (ulen 0)
  get_stmt_attr h StatementAttribute.concurrency = returns (ulen 1)
  get_stmt_attr h StatementAttribute.retrieve_data = returns (ulen 1)
  get_stmt_attr h StatementAttribute.async_stmt_event = throws unsupported
  get_stmt_attr h StatementAttribute.async_stmt_pcallback = throws unsupported
  get_stmt_attr h StatementAttribute.async_stmt_pcontext = throws unsupported
  get_stmt_attr h StatementAttribute.fetch_bookmark_ptr = returns (pointer 0)
  get_stmt_attr h StatementAttribute.row_number = returns (ulen h.statement.row_number)
  get_stmt_attr h StatementAttribute.max_rows = returns (ulen h.statement.max_rows)
  get_stmt_attr h StatementAttribute.rowset_size = returns (ulen h.statement.rowset_size)
  get_stmt_attr h StatementAttribute.max_length =
      spi_value (pos 3) (spi.get_attribute h.spi AttributeId.max_length)
  get_stmt_attr h StatementAttribute.metadata_id =
      spi_value (pos 16404) (spi.get_attribute h.spi AttributeId.metadata_id)
  get_stmt_attr h StatementAttribute.noscan =
      spi_value (pos 2) (spi.get_attribute h.spi AttributeId.noscan)
  get_stmt_attr h StatementAttribute.query_timeout =
      spi_value (pos 0) (spi.get_attribute h.spi AttributeId.query_timeout)
  get_stmt_attr h (StatementAttribute.other n) = throws (invalid_statement_attribute n)
