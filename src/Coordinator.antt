-- ===== src/Coordinator.antt =====
-- internal/coordinator: the node itself, which ties the other parts together.
pub mod Host
pub mod Identity
pub mod Rpc
pub mod Loops
pub mod Announce
pub mod Background
pub mod Files
pub mod Inspect
pub mod Catalog
