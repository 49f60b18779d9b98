-- ===== src/Preload.antt =====
-- project2/share.cpp, the library that is preloaded: what it asks of libc and its state (Libc), what it
-- prints of a buffer (Bytes), its functions on paths (Paths) and on open files (Streams), every function
-- against libc's (Calls, Ready, Same, Transparent, Unset), where it writes when it was launched
-- (Launched), and the bytes that it shows (Payload, Shown).
pub mod Libc
pub mod Bytes
pub mod Paths
pub mod Streams
pub mod Calls
pub mod Payload
pub mod Ready
pub mod Shown
pub mod Same
pub mod Transparent
pub mod Unset
pub mod Launched
mod Tests
