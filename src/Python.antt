-- ===== src/Python.antt =====
-- The parts of Python's language and standard library that the programs use.
pub mod Int
pub mod Text
pub mod Json
pub mod Base64
pub mod Percent
pub mod Utf8
pub mod Headers
pub mod Url
