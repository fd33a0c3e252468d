-- ===== src/Go.antt =====
-- What the handlers use of Go: float64, the values of a decoded JSON document, maps and slices.
pub mod Float64
pub mod Value
pub mod Map
pub mod Slice
