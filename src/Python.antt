-- ===== src/Python.antt =====
-- The parts of Python that the servers use: byte strings and texts, their decoding, dictionaries,
-- the values of a log entry.
pub mod Bytes
pub mod Utf8
pub mod Dict
pub mod Value
pub mod Result
pub mod Struct
pub mod Split
pub mod Digits
pub mod Json
pub mod Number
pub mod Base64
pub mod Query
