-- ===== src/Cpu.antt =====
-- src/cpu.c, by groups of operations.
pub mod Flags
pub mod Alu
pub mod Shift
pub mod Control
pub mod Load
pub mod Wide
pub mod Indirect
pub mod Reset
pub mod Opcode
pub mod Step
