-- ===== src/Go.antt =====
-- What the program uses of the Go language and its standard library.
pub mod Text
pub mod Strings
pub mod Float
pub mod Json
pub mod Sort
pub mod Time
pub mod Int
