-- ===== src/Statement/Assigned.antt =====
-- Assigning an application descriptor by `SetStmtAttr` of odbc_impl/ODBCStatement.cc keeps the
-- descriptors' registrations exact.
use native.Mathlib.Decide.{ℕ_discrete}
use gizmosql_odbc_driver.Prelude.{
  ℕ, ◌+◌, ◌-◌, ◌≡◌, ◌≢◌, refl, sym, ap, ◌∙◌, Bool, true, false, some, ◌==◌, arith,
}
use gizmosql_odbc_driver.Exceptions.{Outcome, returns, ◌>>=◌}
use gizmosql_odbc_driver.Descriptor.{Descriptor}
use gizmosql_odbc_driver.Statement.{Statement, Memory}
use gizmosql_odbc_driver.Statement.Cursor.{Handle, Spi}
use gizmosql_odbc_driver.Statement.SetAttributes.{
  move_registration, set_app_row_desc, set_app_param_desc,
}
use gizmosql_odbc_driver.Statement.Registration.{
  registrations, current, one_if, IsRegistered, move_registration-IsMoved,
}

-- The counts after the move, from those before it.
move-one_if :
    (before after a b c : ℕ)
    → before ≡ one_if (a == c)
    → (a ≢ b → c ≡ a → after ≡ before - 1)
    → (a ≢ b → c ≡ b → after ≡ before + 1)
    → (c ≢ a → c ≢ b → after ≡ before)
    → (a ≡ b → after ≡ before)
    → after ≡ one_if (b == c)
move-one_if before after a b c was left entered others stays = elim (ℕ_discrete a b) [
  | yes e ↦ ground (arith, stays e)
  | no h ↦ elim (ℕ_discrete c a) [
    | yes e ↦ ground (arith, left h e)
    | no ha ↦ elim (ℕ_discrete c b) [
      | yes e ↦ ground (arith, entered h e)
      | no hb ↦ ground (arith, others ha hb)
    ]
  ]
]

abbrev pub own_of : {R : Type 0} → Statement R → Bool → ℕ
own_of s true = s.built_in_apd
own_of s false = s.built_in_ard

abbrev pub with_current : {R : Type 0} → Statement R → Bool → ℕ → Statement R
with_current s true a = record s { current_apd = a }
with_current s false a = record s { current_ard = a }

not_own :
    {R : Type 0} (s : Statement R) (is_apd : Bool) (c : ℕ)
    → c ≢ s.built_in_ard
    → c ≢ s.built_in_apd
    → c ≢ own_of s is_apd
not_own s true c ha hb = hb
not_own s false c ha hb = ha

move_registration-IsRegistered :
    {R : Type 0} (this : ℕ) (is_apd : Bool) (s : Statement R) (b : ℕ) (m : Memory)
    (da db : Descriptor)
    → m.descriptor (current s is_apd) ≡ some da
    → m.descriptor b ≡ some db
    → IsRegistered this is_apd s m
    → (m' : Memory) × (move_registration this is_apd (own_of s is_apd) (current s is_apd) b m
        ≡ returns m')
      × ((c : ℕ)
          → c ≢ s.built_in_ard
          → c ≢ s.built_in_apd
          → registrations this is_apd (m'.descriptor c) ≡ one_if (b == c))
unfolding IsRegistered
move_registration-IsRegistered this is_apd s b m da db at_a at_b was =
    let a = current s is_apd in
    let own = own_of s is_apd in
    let (m', e, k) = move_registration-IsMoved this is_apd own a b m da db at_a at_b in
    let reg = λ (n : Memory) (c : ℕ). registrations this is_apd (n.descriptor c) in
    (
      m',
      e,
      λ c ha hb.
          move-one_if (reg m c) (reg m' c) a b c (was c ha hb)
            (λ h e.
              ap (reg m') e
              ∙ k.left h (λ o. not_own s is_apd c ha hb (e ∙ o))
              ∙ ap (λ c. reg m c - 1) (sym e))
            (λ h e.
              ap (reg m') e
              ∙ k.entered h (λ o. not_own s is_apd c ha hb (e ∙ o))
              ∙ ap (λ c. reg m c + 1) (sym e))
            (λ h h'. ap (registrations this is_apd) (k.others c h h'))
            (λ e. ap (λ n. reg n c) (k.stays e)),
    )

module _ {S R : Type 0} (spi : Spi S R) (this : ℕ) where
  abbrev pub set_app_desc : Bool → Handle S R → ℕ → Outcome (Handle S R)
  set_app_desc true h desc = set_app_param_desc spi this h desc
  set_app_desc false h desc = set_app_row_desc spi this h desc

  -- Assigning an existing descriptor as SQL_ATTR_APP_PARAM_DESC or SQL_ATTR_APP_ROW_DESC makes it the
  -- current one and keeps the registrations exact: it lists the statement once, and the descriptor
  -- that was current, if it is another, does not any more.
  pub set_app_desc-IsRegistered :
      (is_apd : Bool) (h : Handle S R) (desc : ℕ) (da db : Descriptor)
      → h.memory.descriptor (current h.statement is_apd) ≡ some da
      → h.memory.descriptor desc ≡ some db
      → IsRegistered this is_apd h.statement h.memory
      → (h' : Handle S R) × (set_app_desc is_apd h desc ≡ returns h')
        × (h'.statement ≡ with_current h.statement is_apd desc)
        × IsRegistered this is_apd h'.statement h'.memory
  unfolding set_app_param_desc set_app_row_desc IsRegistered
  set_app_desc-IsRegistered true h desc da db at_a at_b was =
      let (m', e, k) =
        move_registration-IsRegistered this true h.statement desc h.memory da db at_a at_b was in
      (
        _,
        ap
            (λ o. o >>= λ m.
              returns
                (record h { statement = record h.statement { current_apd = desc }; memory = m }))
            e,
        refl,
        k,
      )
  set_app_desc-IsRegistered false h desc da db at_a at_b was =
      let (m', e, k) =
        move_registration-IsRegistered this false h.statement desc h.memory da db at_a at_b was in
      (
        _,
        ap
            (λ o. o >>= λ m.
              returns
                (record h { statement = record h.statement { current_ard = desc }; memory = m }))
            e,
        refl,
        k,
      )
