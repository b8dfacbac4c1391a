-- ===== src/Nmea.antt =====
-- projects/lago_v1_3/src: nmea_rp.c, gps_rp.c and uart_rp.c, from the bytes of the serial line to
-- the position.
pub mod Sentence
pub mod Floats
pub mod Fields
pub mod Location
pub mod Checksum
pub mod Uart
pub mod Port
pub mod Tests
