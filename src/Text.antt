-- ===== src/Text.antt =====
-- The C and C++ text routines that the programs call, over lists of bytes.
pub mod Token
pub mod Number
pub mod Digits
pub mod Decimals
pub mod Words
pub mod Find
