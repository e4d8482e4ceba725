-- ===== src/Tracker.antt =====
-- The tracker, tracker/: who has announced which torrent.
pub mod Hex
pub mod Memory
pub mod Query
pub mod Server
pub mod Redis
