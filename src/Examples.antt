-- ===== src/Examples.antt =====
-- The theorems at concrete inputs.
mod Host
mod Formats
mod Structured
mod Migrations
mod Routes
mod Disks
mod Rocks
mod Memcache
mod Reached
mod Contracts
mod Wrappers
mod Memory
