-- ===== src/Store/Memory.antt =====
-- store/memory: the in-memory store with revisions, a limit on the entries of a collection and a log
-- of changes.
pub mod Changes
pub mod Capacity
pub mod State
pub mod Calls
pub mod Swap
pub mod Logged
