-- ===== src/Tests.antt =====
-- Concrete runs of the program's parts: a small network, a small block store, and what they do.
mod Disk
mod Store
mod World
mod Cluster
mod Keyed
mod Sharing
mod Background
mod Peers
mod Blocks
mod Programs
mod Services
mod Keys
mod Discovery
