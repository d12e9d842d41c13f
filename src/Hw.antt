-- ===== src/Hw.antt =====
-- The hardware (src/hw): one child for each device.
pub mod Bda
pub mod Scancodes
pub mod Keyboard
pub mod Storage
pub mod Display
pub mod Serial
pub mod Mouse
pub mod Devices
pub mod Port
pub mod Events
pub mod Timer
