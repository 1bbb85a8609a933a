-- ===== src/Lib.antt =====
-- The core of openkeyv, a key-value layer with one protocol over many stores.
--
-- A store keeps values under a collection and a key. What it writes is a managed entry, a value
-- with the times at which it was made and at which it expires, encoded to bytes; stores with
-- revisions put an envelope in front. Wrappers stand between a client and a store, or on other
-- wrappers, and have the same protocol as a store.
--
-- Paths are from rust/crates/openkeyv/src.
--   Base: what the components share; Base/Outcome is error.rs; Base/Bytes has byte strings, words
--     and texts, Base/Assoc maps, Base/Order the order of texts.
--   Platform: f64, chrono, the clock and the source of randomness, which are parameters.
--   Value: value/kind.rs and value/mod.rs (Value/Checked), value/structured.rs and value/codec.rs
--     (Value/Structured, Value/Decode), well-formed UTF-8 (Value/Utf8).
--   Entry: entry/mod.rs and entry/codec.rs (Entry/Codec).
--   Cas: cas.rs, and Revision and RevisionedValue of protocol.rs.
--   Utils: utils/compound.rs (Utils/Compound), utils/sanitize.rs (Utils/Sanitize).
--   Protocol: protocol.rs; Protocol/Contract is what a store promises, stated without the code.
--   Change: change.rs.
--   Store: store/simple (Store/Simple), store/disk (Store/Disk: the names of the trees in Trees, the
--     calls in Calls; sled is a parameter), store/rocksdb (Store/Rocks; RocksDB is a parameter),
--     store/memcached (Store/Memcached; the client of memcached is a parameter),
--     store/null (Store/Null) and store/memory (Store/Memory: the change log of client.rs
--     in Changes, enforce_capacity in Capacity, config.rs and the setup in State, the calls in Calls
--     and those that compare revisions in Swap).
--   Migration: migration.rs.
--   Wrapper: a module for each modelled file of wrapper, named like it.
--   Examples: the theorems at concrete inputs.
--
-- An operation is a function from the state to a result and a new state; what was written before an
-- error stays written. Async calls run one after the other: in the memory store the mutation lock
-- orders the writes. Bytes and texts are lists of numbers. An i64, a u64 and an f64 in a payload
-- stand as their 64-bit patterns. A HashMap or DashMap is an association list, walked in its order.
-- The explaining texts inside errors are left out. Each reading of the clock and each draw of
-- random bytes is an input. The broadcast channel of the change feed is the list of what it hands
-- to a subscriber.
--
-- The decoder of structured values has fuel for the nesting, one more than the number of bytes: each
-- level of nesting takes a byte. The eviction of the memory store has as much fuel as entries: each
-- round drops one. decimal has fuel one more than its number, which has at most as many digits.
-- The batches of a migration have as much fuel as keys: each batch takes one or more.
--
-- Left out: the other stores over databases, services and files; the wrapper for logging; the factory
-- and the handles; the conversion to JSON; the bindings for Python; the depth of the machine's stack
-- and the memory that it can allocate.
pub mod Base
pub mod Platform
pub mod Value
pub mod Entry
pub mod Cas
pub mod Utils
pub mod Protocol
pub mod Change
pub mod Store
pub mod Wrapper
pub mod Migration
mod Examples
