-- ===== src/Lib.antt =====
-- A model of the GizmoSQL ODBC driver, an ODBC 3 driver over Arrow Flight SQL, with the theorems
-- that make its parts correct.
--
-- The driver has three layers. odbc_entry/odbc_entry.cc exports the SQL… functions; each runs a
-- body on a handle (ODBCHandle.h). odbcabstraction/ holds the handles: environments, connections,
-- statements and descriptors, with their diagnostics. flight_sql/ implements statements and
-- result sets over Flight SQL, and converts Arrow values to the C types that the application
-- bound.
--
-- The files and what they model:
--
--   Prelude and its children: the library names, Boolean tests, vectors as lists, signed integers
--     with the reading of a machine word (static_cast to a signed type).
--   Exceptions: odbcabstraction/exceptions.cc and
--     odbcabstraction/include/odbcabstraction/error_codes.h; a Result is a value or an exception,
--     and an Outcome may also be undefined behaviour.
--   Diagnostics: odbcabstraction/diagnostics.cc and
--     odbcabstraction/include/odbcabstraction/diagnostics.h, with State for the SQLSTATE and
--     Records for histories of calls.
--   Handle: odbcabstraction/include/odbcabstraction/odbc_impl/ODBCHandle.h, with Outcome for what
--     a return code tells.
--   Descriptor: odbcabstraction/odbc_impl/ODBCDescriptor.cc, with Record for DescriptorRecord,
--     SetField and GetField for those functions, Metadata for the columns that an implementation
--     row descriptor is filled from, and the proofs in Highest, Bind, Covered and ReadBack.
--   Statement: odbcabstraction/odbc_impl/ODBCStatement.cc over interfaces of spi/result_set.h and
--     spi/statement.h in odbcabstraction/include/odbcabstraction, with the descriptors in a store
--     by address; CType, Fetch, Cursor, GetData, Attributes and SetAttributes have its functions,
--     Release has ReleaseDescriptor of ODBCDescriptor.cc, and the other children the proofs:
--     Defaults, Forward, Step, Draining and Cycle for reading a result to its end, Closed,
--     ArdType, SetGet, Registration, Assigned and Released. Flight has the result sets of
--     ResultSet, with one column of numbers, as those that the statement reads.
--   Types: the enumerations of odbcabstraction/include/odbcabstraction/types.h and Arrow's type
--     ids; its children are the tables of flight_sql/utils.cc over them (Conversion, Sizes,
--     Names, Arrow), with Laws for what they agree on, and GetConverter (Converter) over an
--     interface of the Arrow functions that it calls, with Read for the types of its arrays.
--   DecimalText: FormatDecimalWithoutScientificNotation of flight_sql/utils.cc, with Value for
--     the number that a text denotes.
--   Timestamp: flight_sql/accessors/timestamp_array_accessor.cc, with Split for seconds and
--     fraction.
--   Cell: the moves of one cell in flight_sql/accessors/string_array_accessor.cc and
--     binary_array_accessor.cc; Slot has the shared lemmas, and BinaryRead and TextRead read a
--     whole cell by calls of SQLGetData, with fuel for the calls of which more than the cell has
--     bytes are enough.
--   Environment: odbcabstraction/odbc_impl/ODBCEnvironment.cc; History has the proofs.
--   ConnString: getPropertiesFromConnString and loadPropertiesFromDSN of
--     odbcabstraction/odbc_impl/ODBCConnection.cc, from the keys and values that the regular
--     expression finds; Lookup and Precedence have the proofs.
--   ResultSet: Move of flight_sql/flight_sql_result_set.cc over an interface of the accessors,
--     with Bind for BindColumn and Primitive for the accessors of
--     flight_sql/accessors/primitive_array_accessor.cc; Placed, Segment, Rows and InOrder have
--     the proofs. The loop runs on fuel, and its rounds are at most the wanted rows and the
--     chunks in the buffer, and one more. What is still in the chunk buffer is a list of chunks,
--     as the queue of Queue gives them.
--   Queue: odbcabstraction/include/odbcabstraction/blocking_queue.h, a critical section at a
--     time; Ring has the ring buffer as a queue, System the threads under a schedule, Turns,
--     Phases and Delivery what holds under every schedule, and Overrun the extended buffer with
--     two producers.
--   Attribute: GetAttributeUTF8 of
--     odbcabstraction/include/odbcabstraction/odbc_impl/AttributeUtils.h, with Utf8 for what the
--     application reads and StringAttribute for GetStringAttribute, also in SQLWCHAR.
--   Pattern: ConvertSqlPatternToRegexString of flight_sql/utils.cc, with Tokens for what a
--     pattern and a regular expression ask for.
--   Examples: runs of the definitions, and each result at an input.
--
-- Machine words are natural numbers with their wrap-around written out. Pointers are addresses,
-- and 0 is the null pointer. The mutex of a handle, logging and the conversions between character
-- sets are not modelled. Nor are the connections of odbcabstraction/odbc_impl, but for connection
-- strings, GetData and Close of the result sets, the metadata readers of flight_sql, and the
-- calls over the network; an exception in Move loses what was written before it; a statement sees
-- result sets and the server through its interfaces, and what it is after an exception that these
-- throw is not said; an array of Arrow is what the interface in Types.Converter says of it. Loops
-- over lists are structural recursions; the only other fuel is the number of calls that an
-- application makes, in Cell and in Statement.Draining, where two more calls than the result has
-- full batches are enough.
pub mod Attribute
pub mod Cell
pub mod ConnString
pub mod DecimalText
pub mod Descriptor
pub mod Diagnostics
pub mod Environment
pub mod Examples
pub mod Exceptions
pub mod Handle
pub mod Pattern
pub mod Prelude
pub mod Queue
pub mod ResultSet
pub mod Statement
pub mod Timestamp
pub mod Types
