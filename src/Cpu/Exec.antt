-- ===== src/Cpu/Exec.antt =====
-- The execution of one decoded instruction (src/cpu/instruction_exec.rs), by kind of instruction.
-- A method that takes `&mut self` and `mem` maps the `Core` of both to a new one; one that can
-- panic returns a `Result`.
pub mod Stack
pub mod Flags
pub mod NoOperand
pub mod TwoOperands
pub mod Shift
pub mod Single
pub mod Strings
pub mod Control
