-- ===== src/Statement/Registration.antt =====
-- Which statements a descriptor knows of: `SetStmtAttr` with the two application descriptors in
-- odbc_impl/ODBCStatement.cc, against `RegisterToStatement` and `DetachFromStatement` of
-- odbc_impl/ODBCDescriptor.cc.
use native.Mathlib.Decide.{ℕ_discrete}
use gizmosql_odbc_driver.Prelude.{
  ℕ, ◌+◌, ◌-◌, ◌≡◌, ◌≢◌, refl, sym, ap, ◌∙◌, Bool, true, false, Option, none, some, List, [], ◌∷◌,
  ◌++◌, ◌==◌, if◌then◌else◌, arith,
}
use gizmosql_odbc_driver.Exceptions.{returns, ◌>>=◌}
use gizmosql_odbc_driver.Descriptor.{
  Descriptor, register_to_statement, detach_from_statement, erase,
}
use gizmosql_odbc_driver.Statement.{Statement, Memory, deref, put, store-same, store-other}
use gizmosql_odbc_driver.Statement.SetAttributes.{update_at, register_at, move_registration}

unfoldable pub count : ℕ → List ℕ → ℕ
count x [] = 0
count x (y ∷ ys) = (if y == x then 1 else 0) + count x ys

if_self {ℓ} : {A : Type ℓ} (a b : ℕ) (x y : A) → a ≡ b → (if a == b then x else y) ≡ x
if_self a b x y h = ground arith

if_apart {ℓ} : {A : Type ℓ} (a b : ℕ) (x y : A) → a ≢ b → (if a == b then x else y) ≡ y
if_apart a b x y h = ground arith

pub count-append : (x : ℕ) (xs ys : List ℕ) → count x (xs ++ ys) ≡ count x xs + count x ys
unfolding count
count-append x [] ys = omega arith
count-append x (y ∷ xs) ys = omega (arith, count-append x xs ys)

count-erase : (x : ℕ) (xs : List ℕ) → count x (erase x xs) ≡ count x xs - 1
unfolding count erase
count-erase x [] = refl
count-erase x (y ∷ xs) = ground (arith, count-erase x xs)

abbrev pub registered : Descriptor → Bool → List ℕ
registered d true = d.registered_on_statements_as_apd
registered d false = d.registered_on_statements_as_ard

-- How often the descriptor, if there is one, lists the statement.
unfoldable pub registrations : ℕ → Bool → Option Descriptor → ℕ
unfolding count
registrations this is_apd none = 0
registrations this is_apd (some d) = count this (registered d is_apd)

abbrev pub current : {R : Type 0} → Statement R → Bool → ℕ
current s true = s.current_apd
current s false = s.current_ard

abbrev pub one_if : Bool → ℕ
one_if true = 1
one_if false = 0

-- Every descriptor but the statement's own lists the statement once if it is the statement's
-- current one, and else not at all. So a current descriptor that is not the statement's own exists.
unfoldable pub IsRegistered : {R : Type 0} → ℕ → Bool → Statement R → Memory → Type 0
IsRegistered this is_apd s m =
    (a : ℕ)
    → a ≢ s.built_in_ard
    → a ≢ s.built_in_apd
    → registrations this is_apd (m.descriptor a) ≡ one_if (current s is_apd == a)

registrations-detach :
    (this : ℕ) (is_apd : Bool) (d : Descriptor)
    → registrations this is_apd (some (detach_from_statement d this is_apd))
      ≡ registrations this is_apd (some d) - 1
unfolding registrations detach_from_statement
registrations-detach this true d = count-erase this d.registered_on_statements_as_apd
registrations-detach this false d = count-erase this d.registered_on_statements_as_ard

registrations-register :
    (this : ℕ) (is_apd : Bool) (d : Descriptor)
    → registrations this is_apd (some (register_to_statement d this is_apd))
      ≡ registrations this is_apd (some d) + 1
unfolding registrations register_to_statement count
registrations-register this true d =
    ground (arith, count-append this d.registered_on_statements_as_apd (this ∷ []))
registrations-register this false d =
    ground (arith, count-append this d.registered_on_statements_as_ard (this ∷ []))

-- What one of the two steps does: `f` at `a`, unless it is the built-in one, and nothing elsewhere.
record IsChanged (this : ℕ) (is_apd : Bool) (built_in a : ℕ) (f : ℕ → ℕ) (m m' : Memory)
    : Type 0 where
  here :
      a ≢ built_in
      → registrations this is_apd (m'.descriptor a) ≡ f (registrations this is_apd (m.descriptor a))
  there : (c : ℕ) → c ≢ a → m'.descriptor c ≡ m.descriptor c

update_at-IsChanged :
    (this : ℕ) (is_apd : Bool) (g : Descriptor → Descriptor) (f : ℕ → ℕ) (built_in a : ℕ)
    (m : Memory) (d : Descriptor)
    → m.descriptor a ≡ some d
    → registrations this is_apd (some (g d)) ≡ f (registrations this is_apd (some d))
    → (m' : Memory) × (update_at g built_in a m ≡ returns m')
      × IsChanged this is_apd built_in a f m m'
update_at-IsChanged this is_apd g f built_in a m d at change = elim (ℕ_discrete a built_in) [
  | yes e ↦ (m, if_self a built_in _ _ e, record { here = λ h. absurd (h e); there = λ c h. refl })
  | no h ↦ (
    put a (g d) m,
    if_apart a built_in _ _ h ∙ ap (λ o. deref o >>= λ d. returns (put a (g d) m)) at,
    record {
      here = λ h'.
          ap (registrations this is_apd) (store-same a (some (g d)) m.descriptor)
          ∙ change
          ∙ ap (λ o. f (registrations this is_apd o)) (sym at);
      there = λ c h'. store-other a c (some (g d)) m.descriptor h';
    },
  )
]

-- Moving a statement from the descriptor at `a` to the one at `b`.
module _ (this : ℕ) (is_apd : Bool) (built_in a b : ℕ) (m : Memory) (da db : Descriptor)
    (at_a : m.descriptor a ≡ some da) (at_b : m.descriptor b ≡ some db) where
  pub record IsMoved (m' : Memory) : Type 0 where
    pub left :
        a ≢ b
        → a ≢ built_in
        → registrations this is_apd (m'.descriptor a)
          ≡ registrations this is_apd (m.descriptor a) - 1
    pub entered :
        a ≢ b
        → b ≢ built_in
        → registrations this is_apd (m'.descriptor b)
          ≡ registrations this is_apd (m.descriptor b) + 1
    pub others : (c : ℕ) → c ≢ a → c ≢ b → m'.descriptor c ≡ m.descriptor c
    pub stays : a ≡ b → m' ≡ m

  pub move_registration-IsMoved :
      (m' : Memory) × (move_registration this is_apd built_in a b m ≡ returns m') × IsMoved m'
  unfolding move_registration
  move_registration-IsMoved = elim (ℕ_discrete a b) [
    | yes e ↦ (
      m,
      if_self a b _ _ e,
      record {
        left = λ h. absurd (h e);
        entered = λ h. absurd (h e);
        others = λ c h h'. refl;
        stays = λ e'. refl;
      },
    )
    | no h ↦
        let (m1, e1, c1) =
          update_at-IsChanged this is_apd _ (λ n. n - 1) built_in a m da at_a
            (registrations-detach this is_apd da) in
        let (m2, e2, c2) =
          update_at-IsChanged this is_apd _ (λ n. n + 1) built_in b m1 db
            (c1.there b (λ e. h (sym e)) ∙ at_b) (registrations-register this is_apd db) in
        (
          m2,
          if_apart a b _ _ h ∙ ap (λ o. o >>= register_at this is_apd built_in b) e1 ∙ e2,
          record {
            left = λ h' own. ap (registrations this is_apd) (c2.there a h) ∙ c1.here own;
            entered = λ h' own.
                c2.here own
                ∙ ap (λ o. registrations this is_apd o + 1) (c1.there b (λ e. h (sym e)));
            others = λ c ha hb. c2.there c hb ∙ c1.there c ha;
            stays = λ e. absurd (h e);
          },
        )
  ]
