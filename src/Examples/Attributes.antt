-- ===== src/Examples/Attributes.antt =====
-- Runs of the attributes of ODBCStatement.cc and of the registrations of ODBCDescriptor.cc.
use native.Mathlib.Decide.{ℕ_discrete}
use gizmosql_odbc_driver.Prelude.{
  some-injective, ℕ, ◌≡◌, ◌≢◌, refl, sym, ap, ◌∙◌, true, false, none, some, [], ◌∷◌, arith, ◌==◌,
  subst,
}
use gizmosql_odbc_driver.Prelude.Int.{pos}
use gizmosql_odbc_driver.Exceptions.{Outcome, returns, ◌>>=◌}
use gizmosql_odbc_driver.Diagnostics.{Diagnostics, OdbcVersion, v_3, add_truncation_warning}
use gizmosql_odbc_driver.Diagnostics as Diag
use gizmosql_odbc_driver.Descriptor.{Descriptor}
use gizmosql_odbc_driver.Descriptor as Desc
use gizmosql_odbc_driver.Descriptor.Record.{DescField, default_record}
use gizmosql_odbc_driver.Descriptor.GetField.{
  ulen, text, string, Target, Reply, get_field, reply_with,
}
use gizmosql_odbc_driver.Handle.{success_with_info}
use gizmosql_odbc_driver.Descriptor.SetField.{set_field}
use gizmosql_odbc_driver.Descriptor.ReadBack.{Settable, get_field-set_field}
use gizmosql_odbc_driver.Statement.{Statement, Memory, init, store, store-other}
use gizmosql_odbc_driver.Statement.Cursor.{Handle, Spi}
use gizmosql_odbc_driver.Statement.Attributes.{StatementAttribute, get_stmt_attr}
use gizmosql_odbc_driver.Statement.SetAttributes.{set_stmt_attr}
use gizmosql_odbc_driver.Statement.SetGet.{
  Linked, attribute_of, field_of, place_of, get_stmt_attr-set_stmt_attr,
}
use gizmosql_odbc_driver.Statement.Registration.{IsRegistered, registrations, count, one_if}
use gizmosql_odbc_driver.Statement.Assigned.{with_current, set_app_desc, set_app_desc-IsRegistered}
use gizmosql_odbc_driver.Statement.Release.{Statements, release_descriptor}
use gizmosql_odbc_driver.Statement.Released.{AreAlive, IsClient, release_descriptor-free, store-at}

-- A writable descriptor with two records.
abbrev pair : Descriptor
pair = record (Desc.init none true true false) { records = default_record ∷ default_record ∷ [] }

-- Room for three bytes, and a text of three letters.
abbrev name_target : Target
name_target = record {
  output = some (9 ∷ 9 ∷ 9 ∷ []);
  output_size = pos 3;
  output_len = true;
  is_unicode = false;
}

abbrev no_diagnostics : Diagnostics
no_diagnostics = Diag.init "v" "c" v_3

abbrev name_reply : Outcome (Diagnostics × Reply)
name_reply =
    set_field pair (pos 2) DescField.name 0 (97 ∷ 98 ∷ 99 ∷ [])
    >>= (λ e. get_field 2 (λ s. s) e (pos 2) DescField.name name_target no_diagnostics)

-- The name is cut to two letters, with a warning and its whole length.
cut_name :
    name_reply
    ≡ returns (
      add_truncation_warning no_diagnostics,
      string (record {
        output = some (97 ∷ 98 ∷ 0 ∷ []);
        output_len = pos 3;
        code = success_with_info;
      }),
    )
unfolding set_field get_field Desc.init add_truncation_warning
cut_name = refl

get_field-set_field_example :
    name_reply ≡ reply_with 2 (λ s. s) (text (97 ∷ 98 ∷ 99 ∷ [])) name_target no_diagnostics
unfolding Desc.init
get_field-set_field_example =
    get_field-set_field 2 (λ s. s) name_target no_diagnostics pair 1 Settable.name 0
      (97 ∷ 98 ∷ 99 ∷ []) refl (omega arith)

abbrev blank : Descriptor
blank = Desc.init none true true false

abbrev memory : Memory
memory = record { descriptor = λ a. some blank; cell = λ a. 0 }

-- A driver below that keeps no attributes; the result sets are empty.
abbrev server : Spi ℕ ℕ
server = record {
  prepare = λ s query. returns (s, none);
  execute_prepared = λ s. returns (s, false);
  execute = λ s query. returns (s, false);
  get_result_set = λ s. 0;
  catalog = λ s call. returns (s, 0);
  get_attribute = λ s id. none;
  set_attribute = λ s id value. (s, false);
}

abbrev handle : Handle ℕ ℕ
handle = record { spi = 0; statement = init 10 11 12 13; memory = memory }

abbrev notes : Diagnostics
notes = Diag.init "GizmoSQL" "driver" OdbcVersion.v_3

get_stmt_attr-set_stmt_attr_example :
    (n : Handle ℕ ℕ × Diagnostics) × (set_stmt_attr server 0 handle notes
        StatementAttribute.paramset_size 5
      ≡ returns n)
    × ((b : Linked)
        → place_of handle.statement b ≡ 11
        → field_of b ≡ DescField.array_size
        → get_stmt_attr server n.0 (attribute_of b) ≡ returns (ulen 5))
    × ((b : Linked)
        → place_of handle.statement b ≢ 11
        → get_stmt_attr server n.0 (attribute_of b) ≡ get_stmt_attr server handle (attribute_of b))
unfolding init Desc.init
get_stmt_attr-set_stmt_attr_example =
    get_stmt_attr-set_stmt_attr server 0 handle notes Linked.paramset_size 5 blank refl refl

blank-IsRegistered : IsRegistered 0 false handle.statement memory
unfolding init Desc.init IsRegistered registrations
blank-IsRegistered = λ a ha hb. ground arith

set_app_desc-IsRegistered_example :
    (h' : Handle ℕ ℕ) × (set_app_desc server 0 false handle 20 ≡ returns h')
    × (h'.statement ≡ with_current handle.statement false 20)
    × IsRegistered 0 false h'.statement h'.memory
set_app_desc-IsRegistered_example =
    set_app_desc-IsRegistered server 0 false handle 20 blank blank refl refl blank-IsRegistered

-- Statement 0 reads through the descriptor at 20, which lists it.
abbrev client : Statement ℕ
client = record (init 10 11 12 13) { current_ard = 20 }

abbrev listed : Descriptor
listed = record blank { registered_on_statements_as_ard = 0 ∷ [] }

abbrev shared : Memory
shared = record { descriptor = store 20 (some listed) (λ a. some blank); cell = λ a. 0 }

abbrev statements : Statements ℕ
statements = store 0 (some client) (λ i. none)

only_client : (i : ℕ) (s : Statement ℕ) → statements i ≡ some s → (i ≡ 0) × (s ≡ client)
only_client i s at = elim (ℕ_discrete i 0) [
  | yes e ↦ (e, some-injective (sym at ∙ ap statements e))
  | no h ↦ absurd (ground (arith, store-other 0 i (some client) (λ j. none) h))
]

one_if_apart : (a b : ℕ) → a ≢ b → one_if (b == a) ≡ 0
one_if_apart a b h = ground arith

one_if_same : (a b : ℕ) → a ≡ b → one_if (b == a) ≡ 1
one_if_same a b h = ground arith

listed_count : (a : ℕ) → registrations 0 false (shared.descriptor a) ≡ one_if (20 == a)
unfolding Desc.init registrations count
listed_count a = elim (ℕ_discrete a 20) [
  | yes e ↦
      ap (registrations 0 false) (store-at 20 a (some listed) (λ b. some blank) e)
      ∙ sym (one_if_same a 20 e)
  | no h ↦
      ap (registrations 0 false) (store-other 20 a (some listed) (λ b. some blank) h)
      ∙ sym (one_if_apart a 20 h)
]

unlisted_count : (a : ℕ) → registrations 0 true (shared.descriptor a) ≡ 0
unfolding Desc.init registrations count
unlisted_count a = elim (ℕ_discrete a 20) [
  | yes e ↦ ap (registrations 0 true) (store-at 20 a (some listed) (λ b. some blank) e)
  | no h ↦ ap (registrations 0 true) (store-other 20 a (some listed) (λ b. some blank) h)
]

client-IsClient : IsClient 0 20 shared client
unfolding init IsRegistered
client-IsClient = record {
  as_apd = λ a ha hb. unlisted_count a ∙ sym (one_if_apart a 11 hb);
  as_ard = λ a ha hb. listed_count a;
  not_ard = omega arith;
  not_apd = omega arith;
}

statements-AreAlive : AreAlive listed.registered_on_statements_as_ard statements
unfolding AreAlive count
statements-AreAlive = λ i h. elim (ℕ_discrete i 0) [
  | yes e ↦ (client, ap statements e)
  | no apart ↦ absurd (ground arith)
]

none-AreAlive : AreAlive listed.registered_on_statements_as_apd statements
unfolding AreAlive Desc.init count
none-AreAlive = λ i h. absurd (omega (arith, h))

statements-IsClient : (i : ℕ) (s : Statement ℕ) → statements i ≡ some s → IsClient i 20 shared s
statements-IsClient i s at =
    let (zero_i, is_client) = only_client i s at in
    subst (λ t. IsClient i 20 shared t) (sym is_client)
      (subst (λ j. IsClient j 20 shared client) (sym zero_i) client-IsClient)

release_descriptor-free_example :
    (ss' : Statements ℕ) × (release_descriptor listed statements ≡ returns ss')
    × ((i : ℕ) (s' : Statement ℕ) → ss' i ≡ some s' → (s'.current_apd ≢ 20) × (s'.current_ard ≢ 20))
release_descriptor-free_example =
    release_descriptor-free listed 20 shared statements refl none-AreAlive statements-AreAlive
      statements-IsClient
