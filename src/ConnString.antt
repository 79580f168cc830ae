-- ===== src/ConnString.antt =====
-- `loadPropertiesFromDSN` and `getPropertiesFromConnString` of odbc_impl/ODBCConnection.cc. The
-- regular expression's keys and values, and the texts of the platform's DSN store, are arguments.
pub mod Lookup
pub mod Precedence
use gizmosql_odbc_driver.Prelude.{
  ℕ, zero, suc, ◌≡◌, Bool, true, false, not, ◌||◌, ◌&&◌, Option, none, some, List, [], ◌∷◌, ◌++◌,
  length, drop, ltb, ◌==◌, if◌then◌else◌,
}
use gizmosql_odbc_driver.Exceptions.{Outcome, returns, throws, faults, ◌>>=◌}
use gizmosql_odbc_driver.Descriptor.Record.{Bytes}

-- Case-insensitive equality of texts, as boost::iequals and the order of the property map have it.
pub record Folding : Type 0 where
  pub iequals : Bytes → Bytes → Bool
  pub same : (a b c : Bytes) → iequals a b ≡ true → iequals a c ≡ iequals b c
  pub symmetric : (a b : Bytes) → iequals a b ≡ iequals b a

-- The DSN store: the buffer with a DSN's keys, and the text of a key.
pub record Profile : Type 0 where
  pub key_buffer : Bytes → Bytes
  pub value : Bytes → Bytes → Bytes

-- Connection::ConnPropertyMap, as keys and values.
abbrev pub Properties : Type 0
Properties = List (Bytes × Bytes)

-- "DSN" and "Driver"
abbrev pub dsn_key : Bytes
dsn_key = 68 ∷ 83 ∷ 78 ∷ []

abbrev pub driver_key : Bytes
driver_key = 68 ∷ 114 ∷ 105 ∷ 118 ∷ 101 ∷ 114 ∷ []

-- The keys in the buffer, each with its NUL, up to an empty one or the end of the buffer; `key` is
-- what was read of the current one. Past the buffer there is no NUL to be found.
unfoldable pub keys_from : Bytes → Bytes → Outcome (List Bytes)
keys_from [] [] = returns []
keys_from (c ∷ key) [] = faults
keys_from [] (zero ∷ buffer) = returns []
keys_from (c ∷ key) (zero ∷ buffer) = keys_from [] buffer >>= λ keys. returns ((c ∷ key) ∷ keys)
keys_from key (suc c ∷ buffer) = keys_from (key ++ suc c ∷ []) buffer

-- The variables of the loop.
pub record Parsing : Type 0 where
  pub is_dsn_first : Bool
  pub is_driver_first : Bool
  pub dsn : Bytes
  pub properties : Properties

abbrev pub without_last : Bytes → Bytes
without_last [] = []
without_last (c ∷ []) = []
without_last (c ∷ d ∷ s) = c ∷ without_last (d ∷ s)

abbrev pub ends_in_brace : Bytes → Bool
ends_in_brace [] = false
ends_in_brace (c ∷ []) = c == 125
ends_in_brace (c ∷ d ∷ s) = ends_in_brace (d ∷ s)

-- Wrapping curly braces, 123 and 125, are stripped.
unfoldable pub strip_braces : Bytes → Bytes
strip_braces [] = []
strip_braces (c ∷ s) = if c == 123 && ends_in_brace s then without_last s else c ∷ s

abbrev pub loaded : Parsing → Bytes → Properties → Outcome Parsing
loaded p dsn ps = returns (record p { is_dsn_first = true; dsn = dsn; properties = ps })

module _ (folding : Folding) where
  unfoldable pub lookup : Bytes → Properties → Option Bytes
  lookup k [] = none
  lookup k ((key, v) ∷ ps) =
      let rest = lookup k ps in if folding.iequals key k then some v else rest

  -- `properties[key] = value`
  unfoldable pub put : Bytes → Bytes → Properties → Properties
  put k v [] = (k, v) ∷ []
  put k v ((key, w) ∷ ps) =
      let rest = put k v ps in if folding.iequals key k then (key, v) ∷ ps else (key, w) ∷ rest

  -- `emplace`, if the key is not found.
  unfoldable pub add_missing : Bytes → Bytes → Properties → Properties
  unfolding lookup
  add_missing k v ps = elim (lookup k ps) [ some w ↦ ps | none ↦ ps ++ (k, v) ∷ [] ]

  abbrev pub is_own_key : Bytes → Bool
  is_own_key key = folding.iequals key dsn_key || folding.iequals key driver_key

  -- The entries of a DSN, without those of the keys DSN and Driver.
  unfoldable pub entries : Profile → Bytes → List Bytes → Properties
  entries profile dsn [] = []
  entries profile dsn (key ∷ keys) =
      let rest = entries profile dsn keys in
      if is_own_key key then rest else (key, profile.value dsn key) ∷ rest

  unfoldable pub add_all : Properties → Properties → Properties
  unfolding add_missing
  add_all [] ps = ps
  add_all ((k, v) ∷ es) ps = add_all es (add_missing k v ps)

  unfoldable pub load_properties_from_dsn : Profile → Bytes → Properties → Outcome Properties
  unfolding keys_from entries add_all
  load_properties_from_dsn profile dsn ps = keys_from [] (profile.key_buffer dsn) >>= λ keys.
      returns (add_all (entries profile dsn keys) ps)

  unfoldable pub parse_pair : Profile → Parsing → Bytes → Bytes → Outcome Parsing
  unfolding load_properties_from_dsn strip_braces put
  parse_pair profile p key value =
      if folding.iequals key dsn_key
      then (if p.is_driver_first || p.is_dsn_first
          then returns p
          else load_properties_from_dsn profile value p.properties >>= loaded p value)
      else if folding.iequals key driver_key
      then (if p.is_dsn_first then returns p else returns (record p { is_driver_first = true }))
      else returns (record p { properties = put key (strip_braces value) p.properties })

  unfoldable pub parse_pairs : Profile → List (Bytes × Bytes) → Parsing → Outcome Parsing
  unfolding parse_pair
  parse_pairs profile [] p = returns p
  parse_pairs profile ((key, value) ∷ pairs) p =
      parse_pair profile p key value >>= parse_pairs profile pairs

  abbrev pub answer : Parsing → Outcome (Bytes × Properties)
  answer p = returns (p.dsn, p.properties)

  unfoldable pub get_properties_from_conn_string :
      Profile → List (Bytes × Bytes) → Properties → Outcome (Bytes × Properties)
  unfolding parse_pairs
  get_properties_from_conn_string profile pairs ps =
      parse_pairs profile pairs
        (record { is_dsn_first = false; is_driver_first = false; dsn = []; properties = ps })
      >>= answer
