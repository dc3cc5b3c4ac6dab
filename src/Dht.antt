-- ===== src/Dht.antt =====
-- internal/dht: who holds which block, and which peers are closest to a key.
pub mod Xor
pub mod Providers
pub mod Routing
pub mod Lookup
