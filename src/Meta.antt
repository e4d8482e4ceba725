-- ===== src/Meta.antt =====
-- Torrent metadata, meta/.
pub mod Bencode
pub mod Torrent
