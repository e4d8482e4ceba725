-- ===== src/Cmd.antt =====
-- The command line programs, cmd/.
pub mod Start
pub mod Seed
pub mod Download
pub mod Connect
pub mod Ui
