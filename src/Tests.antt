-- ===== src/Tests.antt =====
-- Runs at concrete inputs: the theorems at arguments where their conditions hold.
mod Pieces
mod Wire
mod Swarm
mod Server
mod Tracker
mod Meta
mod Client
mod Redis
mod Cmd
