-- ===== src/Strings.antt =====
-- The parts of Go's `strings` and `strconv` that the program calls, over byte lists: splitting,
-- trimming, prefixes, and decimal numbers.
pub mod Split
pub mod Decimal
pub mod Trim
pub mod Utf8
