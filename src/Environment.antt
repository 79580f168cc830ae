-- ===== src/Environment.antt =====
-- odbcabstraction/odbc_impl/ODBCEnvironment.cc: the version and the connections of an environment.
-- Versions and pooling modes are 32-bit words; a connection is known by its address.
pub mod History
use gizmosql_odbc_driver.Prelude.{ℕ, String, List, [], ◌∷◌, ◌++◌, ◌==◌, if◌then◌else◌}
use gizmosql_odbc_driver.Diagnostics.{Diagnostics, init, OdbcVersion, v_2, v_3}
use gizmosql_odbc_driver.Descriptor.{erase}

pub record Environment : Type 0 where
  pub connections : List ℕ
  pub diagnostics : Diagnostics
  pub version : ℕ
  pub connection_pooling : ℕ

-- `version == SQL_OV_ODBC2 ? V_2 : V_3`
abbrev pub diagnostics_version : ℕ → OdbcVersion
diagnostics_version version = if version == 2 then v_2 else v_3

-- The constructor, with what the driver's diagnostics say of the vendor and the component.
abbrev pub new_environment : String → String → Environment
new_environment vendor component = record {
  connections = [];
  diagnostics = init vendor component v_2;
  version = 2;
  connection_pooling = 0;
}

unfoldable pub set_odbc_version : Environment → ℕ → Environment
set_odbc_version e version = if version == e.version then e else record e {
  version = version;
  diagnostics =
      init e.diagnostics.vendor e.diagnostics.data_source_component (diagnostics_version version);
}

abbrev pub set_connection_pooling : Environment → ℕ → Environment
set_connection_pooling e pooling = record e { connection_pooling = pooling }

-- The connection of the given address, which make_shared allocated, is created and listed.
abbrev pub create_connection : Environment → ℕ → Environment
create_connection e connection = record e { connections = e.connections ++ connection ∷ [] }

unfoldable pub drop_connection : Environment → ℕ → Environment
unfolding erase
drop_connection e connection = record e { connections = erase connection e.connections }
