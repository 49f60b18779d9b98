-- ===== src/Launcher.antt =====
-- project2/logger.cpp, the launcher: what it asks of the system and its state (Host), `main` (Command),
-- and which command it executes (Runs).
pub mod Host
pub mod Command
pub mod Runs
pub mod Overflow
mod Tests
