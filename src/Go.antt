-- ===== src/Go.antt =====
-- What the modules use of Go itself: results with panics, values of any type, and maps.
pub mod Result
pub mod Value
pub mod Map
pub mod Succeeding
