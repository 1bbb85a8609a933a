-- ===== src/Value.antt =====
-- value/mod.rs: typed values. The names of the children are used by their own paths.
pub mod Utf8
pub mod Structured
pub mod Decode
pub mod Checked
pub mod Laws
pub mod Reads
pub mod Canonical
pub mod RoundTrip
pub mod Total
