-- ===== src/Base/Text.antt =====
-- Text as Go's `fmt` and `strings` treat it where the program builds names: `%d` of a number, and
-- what joins parts by a dash.
pub mod Decimal
pub mod Bytes
pub mod Split
pub mod Fold
pub mod Last
