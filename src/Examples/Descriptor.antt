-- ===== src/Examples/Descriptor.antt =====
-- Runs of ODBCDescriptor.cc.
use gizmosql_odbc_driver.Prelude.{◌≡◌, refl, true, false, not, none, [], arith, length, max, ◌==◌}
use gizmosql_odbc_driver.Prelude.Int.{pos}
use gizmosql_odbc_driver.Exceptions.{driver_exception, returns, throws}
use gizmosql_odbc_driver.Descriptor.{Descriptor, init, bind_col, bound_at}
use gizmosql_odbc_driver.Descriptor.Record.{DescField}
use gizmosql_odbc_driver.Descriptor.SetField.{set_field}
use gizmosql_odbc_driver.Descriptor.Bind.{IsExact, bind_col-IsExact}
use gizmosql_odbc_driver.Descriptor.Covered.{IsCovered, Covers, set_field-Covers}

-- A new application row descriptor.
abbrev ard : Descriptor
ard = init none true true false

ard-IsExact : IsExact ard
unfolding init
ard-IsExact = record {
  highest = 0;
  stored = refl;
  exact = record { above = λ j h. refl; at = λ i h. absurd (omega arith) };
  small = omega arith;
}

ard-IsCovered : IsCovered ard
unfolding init
ard-IsCovered = record {
  highest = 0;
  stored = refl;
  above = λ j h. refl;
  fits = omega arith;
  small = omega arith;
}

bind_col-IsExact_example :
    (e : Descriptor) × (bind_col ard (pos 3) (pos 1) 4096 (pos 10) 0 ≡ returns e)
    × IsExact e
    × (bound_at e.records 2 ≡ not (4096 == 0))
    × (length e.records ≡ max 3 (length ard.records))
    × (e.has_bindings_changed ≡ true)
bind_col-IsExact_example = bind_col-IsExact ard 2 (pos 1) 4096 (pos 10) 0 ard-IsExact (omega arith)

set_field-Covers_example : Covers (set_field ard (pos 1) DescField.count 3 [])
set_field-Covers_example =
    set_field-Covers ard (pos 1) DescField.count 3 [] (omega arith) ard-IsCovered

-- Only columns below the vector's end have fields to set.
out_of_range :
    set_field ard (pos 1) DescField.type 4 []
    ≡ throws (driver_exception "Invalid descriptor index" "HY009")
unfolding set_field init
out_of_range = refl
