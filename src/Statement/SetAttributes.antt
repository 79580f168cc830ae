-- ===== src/Statement/SetAttributes.antt =====
-- `SetStmtAttr` and `RevertAppDescriptor` of odbc_impl/ODBCStatement.cc, with the check of
-- AttributeUtils.h.
use gizmosql_odbc_driver.Prelude.{ℕ, ◌%◌, ◌^◌, Bool, true, false, ◌==◌, if◌then◌else◌}
use gizmosql_odbc_driver.Exceptions.{
  Exception, driver_exception, general_warning, Outcome, returns, throws, ◌>>=◌,
}
use gizmosql_odbc_driver.Diagnostics.{Diagnostics, add_warning}
use gizmosql_odbc_driver.Descriptor.{
  Descriptor, set_header_field, register_to_statement, detach_from_statement,
}
use gizmosql_odbc_driver.Descriptor.Record.{DescField}
use gizmosql_odbc_driver.Statement.{Statement, Memory, deref, put}
use gizmosql_odbc_driver.Statement.Cursor.{Handle, Spi, AttributeId}
use gizmosql_odbc_driver.Statement.Attributes.{StatementAttribute, unsupported}

abbrev pub not_implemented : Exception
not_implemented = driver_exception "Optional feature not implemented" "HYC00"

abbrev pub cannot_assign : Exception
cannot_assign = driver_exception "Cannot assign implementation descriptor." "HY017"

abbrev pub read_only_attribute : Exception
read_only_attribute = driver_exception "Cannot set read-only attribute" "HY092"

abbrev pub header_put : Memory → ℕ → Descriptor → Outcome Memory
header_put m a d = returns (put a d m)

abbrev pub set_header_at : Memory → ℕ → DescField → ℕ → Outcome Memory
set_header_at m a field value =
    deref (m.descriptor a) >>= λ d. set_header_field d field value >>= header_put m a

-- A handle and the diagnostics that its operations write to.
abbrev pub Noted : Type 0 → Type 0 → Type 0
Noted S R = Handle S R × Diagnostics

module _ {S R : Type 0} where
  abbrev pub keep_memory : Handle S R → Diagnostics → Memory → Outcome (Noted S R)
  keep_memory h d m = returns (record h { memory = m }, d)

  abbrev pub set_header : Handle S R → Diagnostics → ℕ → DescField → ℕ → Outcome (Noted S R)
  set_header h d a field value = set_header_at h.memory a field value >>= keep_memory h d

-- `CheckIfAttributeIsSetToOnlyValidValue` on an SQLULEN
unfoldable pub check_if_attribute_is_set_to_only_valid_value {ℓ} :
    {A : Type ℓ} → ℕ → ℕ → A → Outcome A
check_if_attribute_is_set_to_only_valid_value value allowed a =
    if value % 2 ^ 64 == allowed then returns a else throws not_implemented

-- A call through a pointer to a descriptor, unless it is to the statement's own descriptor.
abbrev pub update_at : (Descriptor → Descriptor) → ℕ → ℕ → Memory → Outcome Memory
update_at f built_in a m =
    if a == built_in then returns m else deref (m.descriptor a) >>= λ d. returns (put a (f d) m)

abbrev pub detach_at : ℕ → Bool → ℕ → ℕ → Memory → Outcome Memory
detach_at this is_apd built_in a m =
    update_at (λ d. detach_from_statement d this is_apd) built_in a m

abbrev pub register_at : ℕ → Bool → ℕ → ℕ → Memory → Outcome Memory
register_at this is_apd built_in a m =
    update_at (λ d. register_to_statement d this is_apd) built_in a m

-- The statement's current descriptor was `a` and becomes `b`.
unfoldable pub move_registration : ℕ → Bool → ℕ → ℕ → ℕ → Memory → Outcome Memory
move_registration this is_apd built_in a b m =
    if a == b
    then returns m
    else detach_at this is_apd built_in a m >>= register_at this is_apd built_in b

module _ {S R : Type 0} (spi : Spi S R) where
  -- `this` is the statement itself.
  unfoldable pub set_app_param_desc : ℕ → Handle S R → ℕ → Outcome (Handle S R)
  unfolding move_registration
  set_app_param_desc this h desc =
      let s = h.statement in
      move_registration this true s.built_in_apd s.current_apd desc h.memory >>= λ m.
      returns (record h { statement = record s { current_apd = desc }; memory = m })

  unfoldable pub set_app_row_desc : ℕ → Handle S R → ℕ → Outcome (Handle S R)
  unfolding move_registration
  set_app_row_desc this h desc =
      let s = h.statement in
      move_registration this false s.built_in_ard s.current_ard desc h.memory >>= λ m.
      returns (record h { statement = record s { current_ard = desc }; memory = m })

  abbrev pub note : Diagnostics → Handle S R → Outcome (Noted S R)
  note d h = returns (h, d)

  -- A value that the part below does not take is only warned of.
  unfoldable pub set_spi_attribute : Handle S R → Diagnostics → AttributeId → ℕ → Noted S R
  set_spi_attribute h d id value =
      let answer = spi.set_attribute h.spi id (value % 2 ^ 64) in
      (
        record h { spi = answer.0 },
        if answer.1 then d else add_warning d "Optional value changed." "01S02" general_warning,
      )

  unfoldable pub set_stmt_attr :
      ℕ → Handle S R → Diagnostics → StatementAttribute → ℕ → Outcome (Noted S R)
  unfolding set_app_param_desc set_app_row_desc set_spi_attribute
      check_if_attribute_is_set_to_only_valid_value
  set_stmt_attr this h d StatementAttribute.app_param_desc value =
      set_app_param_desc this h value >>= note d
  set_stmt_attr this h d StatementAttribute.app_row_desc value =
      set_app_row_desc this h value >>= note d
  set_stmt_attr this h d StatementAttribute.imp_param_desc value = throws cannot_assign
  set_stmt_attr this h d StatementAttribute.imp_row_desc value = throws cannot_assign
  set_stmt_attr this h d StatementAttribute.param_bind_offset_ptr value =
      set_header h d h.statement.current_apd DescField.bind_offset_ptr value
  set_stmt_attr this h d StatementAttribute.param_bind_type value =
      set_header h d h.statement.current_apd DescField.bind_type value
  set_stmt_attr this h d StatementAttribute.param_operation_ptr value =
      set_header h d h.statement.current_apd DescField.array_status_ptr value
  set_stmt_attr this h d StatementAttribute.param_status_ptr value =
      set_header h d h.statement.ipd DescField.array_status_ptr value
  set_stmt_attr this h d StatementAttribute.params_processed_ptr value =
      set_header h d h.statement.ipd DescField.rows_processed_ptr value
  set_stmt_attr this h d StatementAttribute.paramset_size value =
      set_header h d h.statement.current_apd DescField.array_size value
  set_stmt_attr this h d StatementAttribute.row_array_size value =
      set_header h d h.statement.current_ard DescField.array_size value
  set_stmt_attr this h d StatementAttribute.row_bind_offset_ptr value =
      set_header h d h.statement.current_ard DescField.bind_offset_ptr value
  set_stmt_attr this h d StatementAttribute.row_bind_type value =
      set_header h d h.statement.current_ard DescField.bind_type value
  set_stmt_attr this h d StatementAttribute.row_operation_ptr value =
      set_header h d h.statement.current_ard DescField.array_status_ptr value
  set_stmt_attr this h d StatementAttribute.row_status_ptr value =
      set_header h d h.statement.ird DescField.array_status_ptr value
  set_stmt_attr this h d StatementAttribute.rows_fetched_ptr value =
      set_header h d h.statement.ird DescField.rows_processed_ptr value
  set_stmt_attr this h d StatementAttribute.async_enable value = throws unsupported
  set_stmt_attr this h d StatementAttribute.async_stmt_event value = throws unsupported
  set_stmt_attr this h d StatementAttribute.async_stmt_pcallback value = throws unsupported
  set_stmt_attr this h d StatementAttribute.async_stmt_pcontext value = throws unsupported
  set_stmt_attr this h d StatementAttribute.concurrency value =
      check_if_attribute_is_set_to_only_valid_value value 1 (h, d)
  set_stmt_attr this h d StatementAttribute.cursor_scrollable value =
      check_if_attribute_is_set_to_only_valid_value value 0 (h, d)
  set_stmt_attr this h d StatementAttribute.cursor_sensitivity value =
      check_if_attribute_is_set_to_only_valid_value value 0 (h, d)
  set_stmt_attr this h d StatementAttribute.cursor_type value =
      check_if_attribute_is_set_to_only_valid_value value 0 (h, d)
  set_stmt_attr this h d StatementAttribute.enable_auto_ipd value =
      check_if_attribute_is_set_to_only_valid_value value 0 (h, d)
  set_stmt_attr this h d StatementAttribute.keyset_size value =
      check_if_attribute_is_set_to_only_valid_value value 0 (h, d)
  set_stmt_attr this h d StatementAttribute.simulate_cursor value =
      check_if_attribute_is_set_to_only_valid_value value 2 (h, d)
  set_stmt_attr this h d StatementAttribute.use_bookmarks value =
      check_if_attribute_is_set_to_only_valid_value value 0 (h, d)
  set_stmt_attr this h d StatementAttribute.retrieve_data value =
      check_if_attribute_is_set_to_only_valid_value value 1 (h, d)
  set_stmt_attr this h d StatementAttribute.fetch_bookmark_ptr value =
      if value == 0 then returns (h, d) else throws not_implemented
  set_stmt_attr this h d StatementAttribute.row_number value = throws read_only_attribute
  set_stmt_attr this h d StatementAttribute.rowset_size value =
      returns (record h { statement = record h.statement { rowset_size = value % 2 ^ 64 } }, d)
  set_stmt_attr this h d StatementAttribute.max_rows value = throws read_only_attribute
  set_stmt_attr this h d StatementAttribute.max_length value =
      returns (set_spi_attribute h d AttributeId.max_length value)
  set_stmt_attr this h d StatementAttribute.metadata_id value =
      returns (set_spi_attribute h d AttributeId.metadata_id value)
  set_stmt_attr this h d StatementAttribute.noscan value =
      returns (set_spi_attribute h d AttributeId.noscan value)
  set_stmt_attr this h d StatementAttribute.query_timeout value =
      returns (set_spi_attribute h d AttributeId.query_timeout value)
  -- The message has the value to write, which is still 0, for the attribute's number.
  set_stmt_attr this h d (StatementAttribute.other n) value =
      throws (driver_exception "Invalid attribute: 0" "HY092")

-- The application's descriptor is gone, and the statement takes its own again.
unfoldable pub revert_app_descriptor : {R : Type 0} → Statement R → Bool → Statement R
revert_app_descriptor s true = record s { current_apd = s.built_in_apd }
revert_app_descriptor s false = record s { current_ard = s.built_in_ard }
