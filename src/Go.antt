-- ===== src/Go.antt =====
-- The parts of Go's standard library that the program leans on: errors as values, strconv's
-- decimal numbers, strings.Replacer and strings.Split.
pub mod Result
pub mod Number
pub mod Int64
pub mod Replacer
pub mod Split
pub mod Map
