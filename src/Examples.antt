-- ===== src/Examples.antt =====
-- Tests of the definitions, and each result at a concrete input.
mod Diagnostics
mod Handle
mod Descriptor
mod Types
mod DecimalText
mod Timestamp
mod Cell
mod Queue
mod Statement
mod Attributes
mod Converter
mod Attribute
mod Pattern
mod ResultSet
mod ConnString
mod Environment
