-- ===== src/Store.antt =====
-- The stores; the database or the service behind one is a parameter.
pub mod Simple
pub mod Memory
pub mod Disk
pub mod Rocks
pub mod Null
pub mod Memcached
