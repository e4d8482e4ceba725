-- ===== src/P2p.antt =====
-- The peer-to-peer layer, p2p/.
pub mod Pieces
pub mod Wire
pub mod Handshake
pub mod PeerState
pub mod Swarm
pub mod Transport
