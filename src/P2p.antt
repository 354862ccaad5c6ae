-- ===== src/P2p.antt =====
-- The messages between nodes (src/p2p).
pub mod Protocol
pub mod Sync
pub mod Server
