-- ===== src/Recorder.antt =====
-- The recorders of projects/adc_recorder, adc_recorder_uio, adc_recorder_old and counter_test, and
-- the program that sets a generator, adc_test/server/gen.c.
pub mod Memory
pub mod Setup
pub mod System
pub mod Lines
pub mod Reset
pub mod Agree
pub mod Programs
pub mod Stored
pub mod Bounds
pub mod Open
pub mod Access
mod Copies
pub mod Start
pub mod Unchecked
mod StartTests
pub mod Generator
pub mod Tests
