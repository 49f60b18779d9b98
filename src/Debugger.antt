-- ===== src/Debugger.antt =====
-- project4/hw4.cpp and hw4.h: the scriptable instruction-level debugger `sdb`.
pub mod Os
pub mod State
pub mod Keeps
pub mod Elf
pub mod Regs
pub mod Disasm
pub mod Breaks
pub mod Control
pub mod Memory
pub mod Load
pub mod Command
pub mod Quiet
pub mod Steady
pub mod Machine
pub mod Guards
pub mod Table
pub mod Ids
pub mod Patch
pub mod Registers
pub mod Trap
pub mod Rearm
pub mod Status
pub mod Progress
pub mod Sections
pub mod Typed
pub mod Endings
mod Tests
