-- ===== src/Lsof.antt =====
-- project1/hw1.cpp, the lsof clone: what it asks of the system (Files), its state (State), its
-- functions (Links, Maps, Fds, Command), and what it lists (Types, Rows, Listing, Options) with which
-- columns (Modes, Names, Mappings).
pub mod Files
pub mod State
pub mod Links
pub mod Maps
pub mod Fds
pub mod Command
pub mod Types
pub mod Rows
pub mod Listing
pub mod Options
pub mod Modes
pub mod Names
pub mod Mappings
mod Tests
