-- ===== src/Venus.antt =====
-- apps/rp_venusGPS: the fields of a GPRMC sentence by its commas, and the loop over the sentences.
pub mod Commas
pub mod Dates
pub mod Location
pub mod Port
pub mod Tests
