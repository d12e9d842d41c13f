-- ===== src/Cpu.antt =====
-- The processor (src/cpu), one child for each of its files or for a part of one.
pub mod Instruction
pub mod State
pub mod Registers
pub mod Address
pub mod Operand
pub mod Access
pub mod Exec
pub mod Branch
pub mod Parser
pub mod Step
