-- ===== src/ConnString/Precedence.antt =====
-- Which source a connection property comes from after `getPropertiesFromConnString` of
-- odbc_impl/ODBCConnection.cc.
use gizmosql_odbc_driver.Prelude.{
  ◌≡◌, refl, sym, ap, ◌∙◌, Bool, true, false, ◌||◌, Option, none, some, List, [], ◌∷◌,
  if◌then◌else◌, Bool-cases, arith, inl, inr,
}
use gizmosql_odbc_driver.Exceptions.{returns}
use gizmosql_odbc_driver.Descriptor.Record.{Bytes}
use gizmosql_odbc_driver.ConnString.{
  Folding, Profile, Properties, Parsing, dsn_key, driver_key, keys_from, lookup, put, is_own_key,
  entries, add_all, load_properties_from_dsn, strip_braces, parse_pair, parse_pairs,
  get_properties_from_conn_string,
}
use gizmosql_odbc_driver.ConnString.Lookup.{
  or_else, or_else_assoc, or_else-none, or_else_if, lookup-put, lookup-add_all,
}

if_none : {A : Type 0} (b : Bool) (o : Option A) → o ≡ none → (if b then none else o) ≡ none
if_none true o h = refl
if_none false o h = h

or_true : (a b : Bool) → b ≡ true → (a || b) ≡ true
or_true a b h = ground arith

or_false : (a b : Bool) → (a || b) ≡ false → (a ≡ false) × (b ≡ false)
or_false a b h = ground arith

module _ (folding : Folding) where
  -- The last value of the text for a key, the keys DSN and Driver apart.
  unfoldable pub last_value : Bytes → List (Bytes × Bytes) → Option Bytes
  last_value k [] = none
  last_value k ((key, v) ∷ pairs) = or_else (last_value k pairs) (
      if is_own_key folding key
      then none
      else if folding.iequals key k
      then some (strip_braces v)
      else none)

  -- The value of the first DSN, if no Driver stands before it.
  unfoldable pub chosen_dsn : List (Bytes × Bytes) → Option Bytes
  chosen_dsn [] = none
  chosen_dsn ((key, v) ∷ pairs) =
      let rest = chosen_dsn pairs in
      if folding.iequals key dsn_key
      then some v
      else if folding.iequals key driver_key
      then none
      else rest

  -- What a chosen DSN has for a key.
  abbrev pub dsn_value : Profile → (Bytes → List Bytes) → Bytes → Option Bytes → Option Bytes
  dsn_value profile keys k none = none
  dsn_value profile keys k (some d) = lookup folding k (entries folding profile d (keys d))

  -- The DSN that the remaining pairs can still bring in.
  abbrev pub open_dsn : Parsing → List (Bytes × Bytes) → Option Bytes
  open_dsn p pairs = if p.is_driver_first || p.is_dsn_first then none else chosen_dsn pairs

  abbrev pub dsn_or : Bytes → Option Bytes → Bytes
  dsn_or d none = d
  dsn_or d (some e) = e

  own_value : Bytes → Bytes → Bytes → Option Bytes
  own_value k key v =
      if is_own_key folding key
      then none
      else if folding.iequals key k
      then some (strip_braces v)
      else none

  module _ (profile : Profile) (keys : Bytes → List Bytes)
      (readable : (d : Bytes) → keys_from [] (profile.key_buffer d) ≡ returns (keys d)) where
    -- One pair hands over to the pairs after it what it says of each key.
    IsHandedOver : Parsing → Bytes → Bytes → Parsing → Type 0
    IsHandedOver p key v p' =
        (pairs : List (Bytes × Bytes))
        → (dsn_or p'.dsn (open_dsn p' pairs) ≡ dsn_or p.dsn (open_dsn p ((key, v) ∷ pairs)))
          × ((k : Bytes)
              → or_else (lookup folding k p'.properties)
                  (dsn_value profile keys k (open_dsn p' pairs))
                ≡ or_else (own_value k key v) (
                    or_else (lookup folding k p.properties)
                      (dsn_value profile keys k (open_dsn p ((key, v) ∷ pairs)))))

    loads :
        (d : Bytes) (ps : Properties)
        → load_properties_from_dsn folding profile d ps
          ≡ returns (add_all folding (entries folding profile d (keys d)) ps)
    unfolding load_properties_from_dsn
    loads d ps = rw (readable d)

    at_dsn :
        (p : Parsing) (key v : Bytes)
        → folding.iequals key dsn_key ≡ true
        → (p' : Parsing) × (parse_pair folding profile p key v ≡ returns p')
          × IsHandedOver p key v p'
    unfolding parse_pair IsHandedOver chosen_dsn own_value
    at_dsn p key v h = elim (Bool-cases (p.is_driver_first || p.is_dsn_first)) [
      | inl e ↦ (p, rw (h, e), λ pairs. (rw e, λ k. rw (e, h)))
      | inr e ↦
          let (no_driver, no_dsn) = or_false p.is_driver_first p.is_dsn_first e in
          let es : Properties = entries folding profile v (keys v) in
          (
            record p { is_dsn_first = true; dsn = v; properties = add_all folding es p.properties },
            rw (h, e, loads v p.properties),
            λ pairs. (
              rw (no_driver, no_dsn, h),
              λ k.
                  rw (no_driver, no_dsn, h)
                    (or_else-none (lookup folding k (add_all folding es p.properties))
                      ∙ lookup-add_all folding k es p.properties),
            ),
          )
    ]

    at_driver :
        (p : Parsing) (key v : Bytes)
        → folding.iequals key dsn_key ≡ false
        → folding.iequals key driver_key ≡ true
        → (p' : Parsing) × (parse_pair folding profile p key v ≡ returns p')
          × IsHandedOver p key v p'
    unfolding parse_pair IsHandedOver chosen_dsn own_value
    at_driver p key v other h = elim (Bool-cases p.is_dsn_first) [
      | inl e ↦
          let shut = or_true p.is_driver_first p.is_dsn_first e in
          (p, rw (other, h, e), λ pairs. (rw shut, λ k. rw (shut, other, h)))
      | inr e ↦
          let shut = if_none {A = Bytes} (p.is_driver_first || p.is_dsn_first) none refl in
          (
            record p { is_driver_first = true },
            rw (other, h, e),
            λ pairs. (rw (other, h, shut), λ k. rw (other, h, shut)),
          )
    ]

    at_property :
        (p : Parsing) (key v : Bytes)
        → folding.iequals key dsn_key ≡ false
        → folding.iequals key driver_key ≡ false
        → (p' : Parsing) × (parse_pair folding profile p key v ≡ returns p')
          × IsHandedOver p key v p'
    unfolding parse_pair IsHandedOver chosen_dsn own_value
    at_property p key v other neither =
        let stripped : Bytes = strip_braces v in
        (
          record p { properties = put folding key stripped p.properties },
          rw (other, neither),
          λ pairs. (
            rw (other, neither),
            λ k.
                let later = dsn_value profile keys k (open_dsn p pairs) in
                rw (other, neither, lookup-put folding k key stripped p.properties)
                  (or_else_if (folding.iequals key k) stripped (lookup folding k p.properties) later
                    ∙ sym (
                        or_else_if (folding.iequals key k) stripped none
                          (or_else (lookup folding k p.properties) later))),
          ),
        )

    parse_pair-IsHandedOver :
        (p : Parsing) (key v : Bytes)
        → (p' : Parsing) × (parse_pair folding profile p key v ≡ returns p')
          × IsHandedOver p key v p'
    parse_pair-IsHandedOver p key v = elim (Bool-cases (folding.iequals key dsn_key)) [
      | inl h ↦ at_dsn p key v h
      | inr other ↦ elim (Bool-cases (folding.iequals key driver_key)) [
        | inl h ↦ at_driver p key v other h
        | inr neither ↦ at_property p key v other neither
      ]
    ]

    -- All the pairs are read, and each key has the value that comes first in rank.
    unfoldable pub IsRead : Parsing → List (Bytes × Bytes) → Parsing → Type 0
    IsRead p pairs p' =
        (p'.dsn ≡ dsn_or p.dsn (open_dsn p pairs))
        × ((k : Bytes)
            → lookup folding k p'.properties
              ≡ or_else (last_value k pairs) (
                  or_else (lookup folding k p.properties)
                    (dsn_value profile keys k (open_dsn p pairs))))

    parse_pairs-IsRead :
        (p : Parsing) (pairs : List (Bytes × Bytes))
        → (p' : Parsing) × (parse_pairs folding profile pairs p ≡ returns p') × IsRead p pairs p'
    unfolding parse_pairs IsRead last_value IsHandedOver own_value chosen_dsn
    parse_pairs-IsRead p [] =
        let shut = if_none {A = Bytes} (p.is_driver_first || p.is_dsn_first) none refl in
        (p, refl, (rw shut, λ k. rw shut (sym (or_else-none (lookup folding k p.properties)))))
    parse_pairs-IsRead p ((key, v) ∷ pairs) =
        let (q, at, over) = parse_pair-IsHandedOver p key v in
        let (r, run, reads) = parse_pairs-IsRead q pairs in
        (
          r,
          rw at run,
          (
            reads.0 ∙ (over pairs).0,
            λ k.
                reads.1 k
                ∙ ap (or_else (last_value k pairs)) ((over pairs).1 k)
                ∙ sym (
                    or_else_assoc (last_value k pairs) (own_value k key v) (
                      or_else (lookup folding k p.properties)
                        (dsn_value profile keys k (open_dsn p ((key, v) ∷ pairs))))),
          ),
        )

    -- If the platform's DSN store gives well-formed key lists, the connection string is read without a
    -- fault: the answer is the value of the first DSN key, or empty if there is none or a Driver key
    -- stands before it, and each key then has the last value that the text gives it, without wrapping
    -- braces, else the value it had before, else the one of that DSN; the keys DSN and Driver of the
    -- text and of the store are ignored.
    pub lookup-get_properties_from_conn_string :
        (pairs : List (Bytes × Bytes)) (ps : Properties)
        → (ps' : Properties) × (get_properties_from_conn_string folding profile pairs ps
            ≡ returns (dsn_or [] (chosen_dsn pairs), ps'))
          × ((k : Bytes)
              → lookup folding k ps'
                ≡ or_else
                    (last_value k pairs)
                    (or_else (lookup folding k ps) (dsn_value profile keys k (chosen_dsn pairs))))
    unfolding get_properties_from_conn_string IsRead
    lookup-get_properties_from_conn_string pairs ps =
        let start : Parsing = record {
          is_dsn_first = false;
          is_driver_first = false;
          dsn = [];
          properties = ps;
        } in
        let (q, run, reads) = parse_pairs-IsRead start pairs in
        (q.properties, rw (run, reads.0), reads.1)
