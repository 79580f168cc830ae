-- ===== src/ConnString/Lookup.antt =====
-- Lookups in the property map of odbc_impl/ODBCConnection.cc after its changes.
use gizmosql_odbc_driver.Prelude.{
  ◌≡◌, refl, sym, ap, ◌∙◌, Bool, true, false, Option, none, some, [], ◌∷◌, ◌++◌, if◌then◌else◌,
  Bool-cases, Option-cases, inl, inr,
}
use gizmosql_odbc_driver.Descriptor.Record.{Bytes}
use gizmosql_odbc_driver.ConnString.{Folding, Properties, lookup, put, add_missing, add_all}

abbrev pub or_else : {A : Type 0} → Option A → Option A → Option A
or_else (some a) o = some a
or_else none o = o

pub or_else_assoc :
    {A : Type 0} (a b c : Option A) → or_else (or_else a b) c ≡ or_else a (or_else b c)
or_else_assoc none b c = refl
or_else_assoc (some x) b c = refl

pub or_else-none : {A : Type 0} (a : Option A) → or_else a none ≡ a
or_else-none none = refl
or_else-none (some x) = refl

pub or_else_if :
    {A : Type 0} (b : Bool) (x : A) (o p : Option A)
    → or_else (if b then some x else o) p ≡ (if b then some x else or_else o p)
or_else_if true x o p = refl
or_else_if false x o p = refl

module _ (folding : Folding) where
  same_right :
      (a b c : Bytes) → folding.iequals a b ≡ true → folding.iequals c a ≡ folding.iequals c b
  same_right a b c h = folding.symmetric c a ∙ folding.same a b c h ∙ folding.symmetric b c

  lookup-iequals :
      (j k : Bytes) (ps : Properties)
      → folding.iequals k j ≡ true
      → lookup folding k ps ≡ lookup folding j ps
  unfolding lookup
  lookup-iequals j k [] h = refl
  lookup-iequals j k ((key, v) ∷ ps) h = rw (same_right k j key h, lookup-iequals j k ps h)

  if_same :
      {A : Type 0} (b : Bool) (x y z : A)
      → (if b then x else z) ≡ (if b then x else if b then y else z)
  if_same true x y z = refl
  if_same false x y z = refl

  -- Keys equal to `j` are not equal to two unequal ones.
  if_apart :
      (j k key : Bytes) (v w o : Option Bytes)
      → folding.iequals key k ≡ false
      → (if folding.iequals key j then w else if folding.iequals k j then v else o)
        ≡ (if folding.iequals k j then v else if folding.iequals key j then w else o)
  if_apart j k key v w o apart = elim (Bool-cases (folding.iequals key j)) [
    | inl e ↦
        let other : folding.iequals k j ≡ false =
          folding.symmetric k j ∙ sym (folding.same key j k e) ∙ apart in
        rw (e, other)
    | inr e ↦ rw (e)
  ]

  pub lookup-put :
      (j k v : Bytes) (ps : Properties)
      → lookup folding j (put folding k v ps)
        ≡ (if folding.iequals k j then some v else lookup folding j ps)
  unfolding lookup put
  lookup-put j k v [] = refl
  lookup-put j k v ((key, w) ∷ ps) = elim (Bool-cases (folding.iequals key k)) [
    | inl e ↦
        rw (e, folding.same key k j e)
          (if_same (folding.iequals k j) (some v) (some w) (lookup folding j ps))
    | inr e ↦
        rw (e, lookup-put j k v ps) (if_apart j k key (some v) (some w) (lookup folding j ps) e)
  ]

  lookup-append :
      (j : Bytes) (ps qs : Properties)
      → lookup folding j (ps ++ qs) ≡ or_else (lookup folding j ps) (lookup folding j qs)
  unfolding lookup
  lookup-append j [] qs = refl
  lookup-append j ((key, w) ∷ ps) qs =
      rw (lookup-append j ps qs)
        (sym (or_else_if (folding.iequals key j) w (lookup folding j ps) (lookup folding j qs)))

  lookup-add_missing :
      (j k v : Bytes) (ps : Properties)
      → lookup folding j (add_missing folding k v ps)
        ≡ or_else (lookup folding j ps) (if folding.iequals k j then some v else none)
  unfolding lookup add_missing
  lookup-add_missing j k v ps = elim (Option-cases (lookup folding k ps)) [
    | inl e ↦ rw (e, add_missing) (lookup-append j ps ((k, v) ∷ []))
    | inr (w, e) ↦
        rw (e, add_missing)
          (elim (Bool-cases (folding.iequals k j)) [
            | inl same ↦ rw (same, sym (lookup-iequals j k ps same), e)
            | inr other ↦ rw (other) (sym (or_else-none (lookup folding j ps)))
          ])
  ]

  pub lookup-add_all :
      (j : Bytes) (es ps : Properties)
      → lookup folding j (add_all folding es ps)
        ≡ or_else (lookup folding j ps) (lookup folding j es)
  unfolding lookup add_all
  lookup-add_all j [] ps = sym (or_else-none (lookup folding j ps))
  lookup-add_all j ((k, v) ∷ es) ps =
      lookup-add_all j es (add_missing folding k v ps)
      ∙ ap (λ o. or_else o (lookup folding j es)) (lookup-add_missing j k v ps)
      ∙ or_else_assoc (lookup folding j ps) (if folding.iequals k j then some v else none)
          (lookup folding j es)
      ∙ ap (or_else (lookup folding j ps))
          (or_else_if (folding.iequals k j) v none (lookup folding j es))
