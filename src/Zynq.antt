-- ===== src/Zynq.antt =====
-- projects/lago_v1_3/src/zynq_io.c and zynq_io.h: the memory-mapped devices of the board.
pub mod Registers
pub mod Device
pub mod System
pub mod Open
pub mod Reset
pub mod Interrupt
pub mod Tests
