-- ===== src/Statement/SetGet.antt =====
-- `GetStmtAttr` after `SetStmtAttr` of odbc_impl/ODBCStatement.cc, for the attributes that are header
-- fields of a descriptor.
use gizmosql_odbc_driver.Prelude.{
  ℕ, ◌%◌, ◌^◌, ◌≡◌, ◌≢◌, refl, sym, ap, ◌∙◌, Bool, true, false, not, ◌&&◌, ◌||◌, some,
  if◌then◌else◌, arith,
}
use gizmosql_odbc_driver.Prelude.Int.{to_signed}
use gizmosql_odbc_driver.Exceptions.{returns, throws, ◌>>=◌}
use gizmosql_odbc_driver.Diagnostics.{Diagnostics}
use gizmosql_odbc_driver.Descriptor.{
  Descriptor, set_header_field, set_header_field_of, is_status_field, read_only,
}
use gizmosql_odbc_driver.Descriptor.Record.{DescField}
use gizmosql_odbc_driver.Descriptor.GetField.{Value, integer, ulen, pointer, get_header_field}
use gizmosql_odbc_driver.Statement.{Statement, Memory, deref, put, store-same, store-other}
use gizmosql_odbc_driver.Statement.Cursor.{Handle, Spi}
use gizmosql_odbc_driver.Statement.Attributes.{StatementAttribute, get_stmt_attr, header_at}
use gizmosql_odbc_driver.Statement.SetAttributes.{
  set_stmt_attr, set_header, header_put, keep_memory,
}

-- The attributes that are kept in a descriptor.
pub data Linked : Type 0 where
  param_bind_offset_ptr param_bind_type param_operation_ptr param_status_ptr : Linked
  params_processed_ptr paramset_size row_array_size row_bind_offset_ptr : Linked
  row_bind_type row_operation_ptr row_status_ptr rows_fetched_ptr : Linked

abbrev pub attribute_of : Linked → StatementAttribute
attribute_of Linked.param_bind_offset_ptr = StatementAttribute.param_bind_offset_ptr
attribute_of Linked.param_bind_type = StatementAttribute.param_bind_type
attribute_of Linked.param_operation_ptr = StatementAttribute.param_operation_ptr
attribute_of Linked.param_status_ptr = StatementAttribute.param_status_ptr
attribute_of Linked.params_processed_ptr = StatementAttribute.params_processed_ptr
attribute_of Linked.paramset_size = StatementAttribute.paramset_size
attribute_of Linked.row_array_size = StatementAttribute.row_array_size
attribute_of Linked.row_bind_offset_ptr = StatementAttribute.row_bind_offset_ptr
attribute_of Linked.row_bind_type = StatementAttribute.row_bind_type
attribute_of Linked.row_operation_ptr = StatementAttribute.row_operation_ptr
attribute_of Linked.row_status_ptr = StatementAttribute.row_status_ptr
attribute_of Linked.rows_fetched_ptr = StatementAttribute.rows_fetched_ptr

abbrev pub field_of : Linked → DescField
field_of Linked.param_bind_offset_ptr = DescField.bind_offset_ptr
field_of Linked.param_bind_type = DescField.bind_type
field_of Linked.param_operation_ptr = DescField.array_status_ptr
field_of Linked.param_status_ptr = DescField.array_status_ptr
field_of Linked.params_processed_ptr = DescField.rows_processed_ptr
field_of Linked.paramset_size = DescField.array_size
field_of Linked.row_array_size = DescField.array_size
field_of Linked.row_bind_offset_ptr = DescField.bind_offset_ptr
field_of Linked.row_bind_type = DescField.bind_type
field_of Linked.row_operation_ptr = DescField.array_status_ptr
field_of Linked.row_status_ptr = DescField.array_status_ptr
field_of Linked.rows_fetched_ptr = DescField.rows_processed_ptr

-- The descriptor that has it.
abbrev pub place_of : {R : Type 0} → Statement R → Linked → ℕ
place_of s Linked.param_bind_offset_ptr = s.current_apd
place_of s Linked.param_bind_type = s.current_apd
place_of s Linked.param_operation_ptr = s.current_apd
place_of s Linked.param_status_ptr = s.ipd
place_of s Linked.params_processed_ptr = s.ipd
place_of s Linked.paramset_size = s.current_apd
place_of s Linked.row_array_size = s.current_ard
place_of s Linked.row_bind_offset_ptr = s.current_ard
place_of s Linked.row_bind_type = s.current_ard
place_of s Linked.row_operation_ptr = s.current_ard
place_of s Linked.row_status_ptr = s.ird
place_of s Linked.rows_fetched_ptr = s.ird

abbrev pub value_of : Linked → ℕ → Value
value_of Linked.param_bind_offset_ptr v = pointer v
value_of Linked.param_bind_type v = integer (to_signed 32 v)
value_of Linked.param_operation_ptr v = pointer v
value_of Linked.param_status_ptr v = pointer v
value_of Linked.params_processed_ptr v = pointer v
value_of Linked.paramset_size v = ulen (v % 2 ^ 64)
value_of Linked.row_array_size v = ulen (v % 2 ^ 64)
value_of Linked.row_bind_offset_ptr v = pointer v
value_of Linked.row_bind_type v = integer (to_signed 32 v)
value_of Linked.row_operation_ptr v = pointer v
value_of Linked.row_status_ptr v = pointer v
value_of Linked.rows_fetched_ptr v = pointer v

-- Only the two status fields of the IRD can be set.
abbrev pub takes : Descriptor → DescField → Bool
takes d field = d.is_writable || is_status_field field

takes-if :
    {A : Type 0} (writable status : Bool) (x y : A)
    → (writable || status) ≡ true
    → (if not writable && not status then x else y) ≡ y
takes-if true true x y h = refl
takes-if true false x y h = refl
takes-if false true x y h = refl
takes-if false false x y h = absurd (ground arith)

set_header_field_lem :
    (a : Linked) (d : Descriptor) (v : ℕ)
    → (e : Descriptor) × (set_header_field_of d (field_of a) v ≡ returns e)
      × (get_header_field e (field_of a) ≡ returns (value_of a v))
unfolding get_header_field
set_header_field_lem Linked.param_bind_offset_ptr d v = (_, refl, refl)
set_header_field_lem Linked.param_bind_type d v = (_, refl, refl)
set_header_field_lem Linked.param_operation_ptr d v = (_, refl, refl)
set_header_field_lem Linked.param_status_ptr d v = (_, refl, refl)
set_header_field_lem Linked.params_processed_ptr d v = (_, refl, refl)
set_header_field_lem Linked.paramset_size d v = (_, refl, refl)
set_header_field_lem Linked.row_array_size d v = (_, refl, refl)
set_header_field_lem Linked.row_bind_offset_ptr d v = (_, refl, refl)
set_header_field_lem Linked.row_bind_type d v = (_, refl, refl)
set_header_field_lem Linked.row_operation_ptr d v = (_, refl, refl)
set_header_field_lem Linked.row_status_ptr d v = (_, refl, refl)
set_header_field_lem Linked.rows_fetched_ptr d v = (_, refl, refl)

module _ {S R : Type 0} (spi : Spi S R) (this : ℕ) (h : Handle S R) (d : Diagnostics) where
  set_linked :
      (a : Linked) (v : ℕ)
      → set_stmt_attr spi this h d (attribute_of a) v
        ≡ set_header h d (place_of h.statement a) (field_of a) v
  unfolding set_stmt_attr
  set_linked Linked.param_bind_offset_ptr v = refl
  set_linked Linked.param_bind_type v = refl
  set_linked Linked.param_operation_ptr v = refl
  set_linked Linked.param_status_ptr v = refl
  set_linked Linked.params_processed_ptr v = refl
  set_linked Linked.paramset_size v = refl
  set_linked Linked.row_array_size v = refl
  set_linked Linked.row_bind_offset_ptr v = refl
  set_linked Linked.row_bind_type v = refl
  set_linked Linked.row_operation_ptr v = refl
  set_linked Linked.row_status_ptr v = refl
  set_linked Linked.rows_fetched_ptr v = refl

  get_linked :
      (m : Memory) (a : Linked)
      → get_stmt_attr spi (record h { memory = m }) (attribute_of a)
        ≡ header_at m (place_of h.statement a) (field_of a)
  unfolding get_stmt_attr
  get_linked m Linked.param_bind_offset_ptr = refl
  get_linked m Linked.param_bind_type = refl
  get_linked m Linked.param_operation_ptr = refl
  get_linked m Linked.param_status_ptr = refl
  get_linked m Linked.params_processed_ptr = refl
  get_linked m Linked.paramset_size = refl
  get_linked m Linked.row_array_size = refl
  get_linked m Linked.row_bind_offset_ptr = refl
  get_linked m Linked.row_bind_type = refl
  get_linked m Linked.row_operation_ptr = refl
  get_linked m Linked.row_status_ptr = refl
  get_linked m Linked.rows_fetched_ptr = refl

  -- Setting an attribute that a descriptor has, where the descriptor takes it, succeeds. Every
  -- attribute that is the same field of the same descriptor then reads as the value, cut to the
  -- width of the field, and those of other descriptors read as before.
  pub get_stmt_attr-set_stmt_attr :
      (a : Linked) (v : ℕ) (desc : Descriptor)
      → h.memory.descriptor (place_of h.statement a) ≡ some desc
      → takes desc (field_of a) ≡ true
      → (n : Handle S R × Diagnostics) × (set_stmt_attr spi this h d (attribute_of a) v ≡ returns n)
        × ((b : Linked)
            → place_of h.statement b ≡ place_of h.statement a
            → field_of b ≡ field_of a
            → get_stmt_attr spi n.0 (attribute_of b) ≡ returns (value_of a v))
        × ((b : Linked)
            → place_of h.statement b ≢ place_of h.statement a
            → get_stmt_attr spi n.0 (attribute_of b) ≡ get_stmt_attr spi h (attribute_of b))
  unfolding set_header_field
  get_stmt_attr-set_stmt_attr a v desc at allowed =
      let place = place_of h.statement a in
      let (e, sets, gets) = set_header_field_lem a desc v in
      let m = put place e h.memory in
      (
        (record h { memory = m }, d),
        set_linked a v
            ∙ ap
                (λ o.
                  deref o
                  >>= (λ c. set_header_field c (field_of a) v >>= header_put h.memory place)
                  >>= keep_memory h d)
                at
            ∙ ap (λ o. o >>= header_put h.memory place >>= keep_memory h d)
                (takes-if desc.is_writable (is_status_field (field_of a)) (throws read_only)
                    (set_header_field_of desc (field_of a) v) allowed
                  ∙ sets),
        (λ b same field.
            get_linked m b
            ∙ ap (λ p. header_at m p (field_of b)) same
            ∙ ap (header_at m place) field
            ∙ ap (λ o. deref o >>= λ c. get_header_field c (field_of a))
                (store-same place (some e) h.memory.descriptor)
            ∙ gets),
        λ b apart.
            get_linked m b
            ∙ ap (λ o. deref o >>= λ c. get_header_field c (field_of b))
                (store-other place (place_of h.statement b) (some e) h.memory.descriptor apart)
            ∙ sym (get_linked h.memory b),
      )
