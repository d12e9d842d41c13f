-- ===== src/Tests.antt =====
-- Examples of the theorems, one at a concrete input for each.
mod Sample
mod Operands
mod Instructions
mod Interrupts
mod Decoder
mod Devices
mod Peripherals
mod Storage
mod Machine
mod Console
