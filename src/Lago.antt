-- ===== src/Lago.antt =====
-- projects/lago_v1_3/src/lago.c: the command line, the actions and the decoder of the ring of
-- words.
pub mod Params
pub mod Command
pub mod Action
pub mod Setting
pub mod Acquisition
pub mod Words
pub mod Buffer
pub mod Reader
pub mod Fields
pub mod Lost
pub mod Interrupts
pub mod Main
pub mod Run
pub mod Clock
pub mod RingTests
pub mod Tests
