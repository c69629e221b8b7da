-- ===== src/Text.antt =====
-- The routines of Go's `strings` and `strconv` that the program's formats rest on.
pub mod Parts
pub mod Decimal
