-- ===== src/Data.antt =====
-- Data structures and arithmetic of the language and its standard library that the components share.
pub mod Bits
pub mod Bytes
pub mod Result
pub mod Assoc
pub mod Sort
