-- ===== src/Lib.antt =====
-- riapyx, an emulator of an IBM PC with an 8086, in its release build with the feature
-- "vram-dirty": arithmetic wraps around, a shift takes its count modulo the width, and the features
-- that log or trace are off, so that the printing macros are empty. A computation that can panic
-- (an index out of bounds, `panic!`, `unreachable!`, `assert!`, `MIN / -1`) returns a `Result`.
--
-- The parts of the program and their files here:
-- - Common: machine words, bit operations (Common/Bits), signed integers (Common/Int), panics,
--   slices, and `match` on numbers as a list of arms (`select`).
-- - Mem: src/mem.rs, the RAM of 1 MiB that src/machine.rs allocates, as a function from addresses.
-- - Cpu/Instruction, Cpu/State, Cpu/Registers: src/cpu/instruction.rs, src/cpu/base.rs and
--   src/cpu/reg_access.rs: decoded instructions, the struct `CPU`, its registers and flags.
-- - Cpu/Address: src/cpu/mem_access.rs and src/cpu/ireg_access.rs, memory operands.
-- - Cpu/Operand (Cpu/Operand/U8, Cpu/Operand/U16) and Cpu/Access: src/cpu/operand_access.rs. The
--   traits `Operand` and `OperandAccess` are records, with one value for each implementation.
-- - Cpu/Exec and Cpu/Branch: src/cpu/instruction_exec.rs. `&mut self` and `mem` are a `Core`, which
--   each run_ function maps to a new one.
-- - Cpu/Parser: src/cpu/parser.rs, the chain of prefix functions, each of which tries the opcode
--   under a longer mask than the one before.
-- - Cpu/Step: src/cpu/exec.rs: poll the interrupts, call the BIOS if CS is a trap segment, decode
--   behind the prefixes, execute, clear the prefixes.
-- - Hw/Bda: the entries of the BIOS data area, of src/bios.rs.
-- - Hw/Keyboard, Hw/Scancodes, Hw/Mouse, Hw/Serial: src/hw/keyboard.rs, src/hw/scancodes.rs,
--   src/hw/mouse.rs, src/hw/serial.rs. The serial port works over any device, which is a record
--   `SerialDevice`; the mouse is the one that is plugged in.
-- - Hw/Storage: src/hw/storage.rs, the parameters of a drive, and Hw/Storage/Disk its transfers.
-- - Hw/Display: src/hw/display.rs, modes, pages and cursors, and Hw/Display/Text output and scrolling.
-- - Hw/Devices, Hw/Events, Hw/Timer: src/hw/mod.rs, the struct `HW`, its event pump and its step.
-- - Hw/Port: src/cpu/io_dispatch.rs, the ports through which the processor reaches the devices.
-- - Bios: src/bios.rs. Bios/Trap is the call that the processor makes in a trap segment; Bios/Video,
--   Bios/Disk, Bios/Keys and Bios/Services are the arms of `handle_interrupt`, Bios/Boot is `boot`.
-- - Machine: src/machine.rs, a turn of the loop: a step of the processor and one of the hardware.
--   Machine/Debug is what the debugger reads of it.
-- - Console: src/main.rs, how a command is read; Console/Breakpoints is `BreakpointManager`, and
--   Console/Run executes commands, and is the loop of `main`. A turn takes the command that waits in
--   the channel between the threads, if one does, as an input.
-- - Tests: examples.
--
-- Parameters: the decoder of the crate iced_x86, which is asked for the opcodes that the decoder
-- here does not know; the files of the disk images, as a type with the operations of a record
-- `FileOps`, the opening of an image and the writing of a new file; the split of a line into words;
-- the time and the events of the window, as inputs of a turn; and in Cpu/Step the BIOS, as
-- any function of the machine, for which Machine takes the one of Bios. A run of prefixes is
-- a recursion of the source without a bound, and takes fuel here: out of fuel is a panic, as a
-- stack that is exhausted. A step spends one unit of it for each prefix and one for the
-- instruction. The loop that splits a mouse's motion takes as much fuel as both motions together.
--
-- Where the program exits on the event that closes the window, or waits for a key that never comes,
-- nothing is returned, and the model has a panic there.
--
-- Not modelled: the drawing of the display and the handles of the crate sdl2, of which a model would
-- be a parameter; printing (src/color_print.rs, src/cpu/debug.rs, the Display implementations of
-- src/cpu/instruction.rs), where the disassembly and the memory that the debugger prints are values
-- and the rest is left out; the thread of the console but for the command that it makes of a line.

pub mod Common
pub mod Mem
pub mod Cpu
pub mod Hw
pub mod Bios
pub mod Machine
pub mod Console
pub mod Tests
