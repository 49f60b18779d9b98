-- ===== src/Mini.antt =====
-- project3/libmini.c, a small libc: what it asks of the kernel and its state (Sys), the wrappers of
-- system calls (Calls), strings and memory (Strings), signals (Signals) and `perror` (Messages); and what
-- they do (Results, Table, Failures, Places, Sets, Handlers, Errors).
pub mod Sys
pub mod Calls
pub mod Results
pub mod Table
pub mod Failures
pub mod Strings
pub mod Signals
pub mod Messages
pub mod Places
pub mod Sets
pub mod Handlers
pub mod Errors
mod Tests
