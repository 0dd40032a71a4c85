-- ===== src/Go.antt =====
-- What the sources use of the Go language itself: 64-bit `int` and `float64`.
pub mod Int64
pub mod Float64
pub mod Decimal
pub mod Strings
