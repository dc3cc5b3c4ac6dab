-- ===== src/Peer.antt =====
-- internal/peer: the registry of the peers that a node knows, and the manager of their states.
pub mod Record
pub mod Registry
pub mod Manager
