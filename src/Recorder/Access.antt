-- ===== src/Recorder/Access.antt =====
-- The functions of the recorders' copies of zynq_io.c that read and write registers.
mod Uio
mod Page
mod Counter
mod Old
unfoldable pub use Uio.*
unfoldable pub use Page.*
unfoldable pub use Counter.*
unfoldable pub use Old.*
