-- ===== src/Utils.antt =====
-- utils/: identities of entries, and the checks of keys.
pub mod Decimal
pub mod Compound
pub mod Sanitize
