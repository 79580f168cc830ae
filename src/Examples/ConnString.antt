-- ===== src/Examples/ConnString.antt =====
-- Runs of `getPropertiesFromConnString` of odbc_impl/ODBCConnection.cc, with the letters A to Z
-- folded and a DSN store of two keys.
use gizmosql_odbc_driver.Prelude.{
  ℕ, ◌+◌, ◌≡◌, refl, Bool, true, false, ◌&&◌, List, [], ◌∷◌, leb, ◌==◌, if◌then◌else◌, arith,
}
use gizmosql_odbc_driver.Exceptions.{returns}
use gizmosql_odbc_driver.Descriptor.Record.{Bytes}
use gizmosql_odbc_driver.ConnString.{
  Folding, Profile, Properties, keys_from, lookup, get_properties_from_conn_string,
}
use gizmosql_odbc_driver.ConnString.Lookup.{or_else}
use gizmosql_odbc_driver.ConnString.Precedence.{
  last_value, chosen_dsn, dsn_value, dsn_or, lookup-get_properties_from_conn_string,
}

abbrev lower : ℕ → ℕ
lower c = if leb 65 c && leb c 90 then c + 32 else c

abbrev equal : Bytes → Bytes → Bool
equal [] [] = true
equal [] (d ∷ b) = false
equal (c ∷ a) [] = false
equal (c ∷ a) (d ∷ b) = lower c == lower d && equal a b

==-sym : (c d : ℕ) → (c == d) ≡ (d == c)
==-sym c d = ground arith

both : (a b : Bool) → (a && b) ≡ true → (a ≡ true) × (b ≡ true)
both a b h = ground arith

==→eq : (c d : ℕ) → (c == d) ≡ true → c ≡ d
==→eq c d h = ground arith

equal_sym : (a b : Bytes) → equal a b ≡ equal b a
equal_sym [] [] = refl
equal_sym [] (d ∷ b) = refl
equal_sym (c ∷ a) [] = refl
equal_sym (c ∷ a) (d ∷ b) = rw (==-sym (lower c) (lower d), equal_sym a b)

equal_same : (a b c : Bytes) → equal a b ≡ true → equal a c ≡ equal b c
equal_same [] [] c h = refl
equal_same [] (y ∷ b) c h = ground arith
equal_same (x ∷ a) [] c h = ground arith
equal_same (x ∷ a) (y ∷ b) [] h = refl
equal_same (x ∷ a) (y ∷ b) (z ∷ c) h =
    let (first, others) = both (lower x == lower y) (equal a b) h in
    rw (==→eq (lower x) (lower y) first, equal_same a b c others)

abbrev ascii : Folding
ascii = record { iequals = equal; same = equal_same; symmetric = equal_sym }

-- The store has "uid=7" and "Port=8" for every DSN, and a Driver.
abbrev store : Profile
store = record {
  key_buffer = λ d.
      117 ∷ 105 ∷ 100 ∷ 0 ∷ 68 ∷ 82 ∷ 73 ∷ 86 ∷ 69 ∷ 82 ∷ 0 ∷ 80 ∷ 111 ∷ 114 ∷ 116 ∷ 0 ∷ 0 ∷ [];
  value = λ d k. elim (equal k (117 ∷ 105 ∷ 100 ∷ [])) [ true ↦ 55 ∷ [] | false ↦ 56 ∷ [] ];
}

abbrev stored_keys : Bytes → List Bytes
stored_keys d =
    (117 ∷ 105 ∷ 100 ∷ []) ∷ (68 ∷ 82 ∷ 73 ∷ 86 ∷ 69 ∷ 82 ∷ []) ∷ (80 ∷ 111 ∷ 114 ∷ 116 ∷ []) ∷ []

readable : (d : Bytes) → keys_from [] (store.key_buffer d) ≡ returns (stored_keys d)
unfolding keys_from
readable d = refl

-- "dsn=d;UID={9}"
abbrev pairs : List (Bytes × Bytes)
pairs = (100 ∷ 115 ∷ 110 ∷ [], 100 ∷ []) ∷ (85 ∷ 73 ∷ 68 ∷ [], 123 ∷ 57 ∷ 125 ∷ []) ∷ []

-- The text's UID, in the place of the DSN's uid, and the port of the DSN.
uid_and_port :
    get_properties_from_conn_string ascii store pairs []
    ≡ returns
        (100 ∷ [], (117 ∷ 105 ∷ 100 ∷ [], 57 ∷ []) ∷ (80 ∷ 111 ∷ 114 ∷ 116 ∷ [], 56 ∷ []) ∷ [])
unfolding get_properties_from_conn_string
uid_and_port = refl

lookup-get_properties_from_conn_string_example :
    (ps' : Properties) × (get_properties_from_conn_string ascii store pairs []
      ≡ returns (dsn_or ascii [] (chosen_dsn ascii pairs), ps'))
    × ((k : Bytes)
        → lookup ascii k ps'
          ≡ or_else (last_value ascii k pairs) (
              or_else
                (lookup ascii k [])
                (dsn_value ascii store stored_keys k (chosen_dsn ascii pairs))))
lookup-get_properties_from_conn_string_example =
    lookup-get_properties_from_conn_string ascii store stored_keys readable pairs []
