-- ===== src/Wrapper.antt =====
-- wrapper/: stores over other stores. Each wrapper takes the interface of the store below and gives
-- the interface of the store above.
pub mod Names
pub mod PrefixKeys
pub mod PrefixCollections
pub mod SingleCollection
pub mod ReadOnly
pub mod DefaultValue
pub mod TtlClamp
pub mod LimitSize
pub mod Statistics
pub mod PassthroughCache
pub mod Encryption
pub mod Compression
pub mod Routing
pub mod Timeout
