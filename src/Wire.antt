-- ===== src/Wire.antt =====
-- The byte streams under core/encoding.go: what Go's `io` and `encoding/binary` do for it.
pub mod Errors
pub mod Sink
pub mod Source
pub mod Little
pub mod Parses
pub mod Takes
