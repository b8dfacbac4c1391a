-- ===== src/Bmp180.antt =====
-- apps/rp_bmp180/bmp180.c and projects/lago_v1_3/src/bmp180.c: the driver of the pressure sensor.
pub mod Sensor
pub mod Compensation
pub mod Copy
pub mod Range
pub mod Bytes
pub mod Tests
pub mod Lifecycle
pub mod Resources
pub mod App
pub mod Driver
