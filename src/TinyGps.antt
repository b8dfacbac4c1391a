-- ===== src/TinyGps.antt =====
-- apps/rp_tinygps: the NMEA decoder of tinygps.c and the reading loop of rp_gps.c.
-- `long` has 32 bits on the target (ARM, armhf), and `char` is unsigned there.
pub mod State
pub mod Number
pub mod Encode
pub mod Query
pub mod Valid
pub mod Accept
pub mod Body
pub mod Sentence
pub mod Digits
pub mod Date
pub mod App
pub mod Accessors
pub mod Tests
pub mod Nul
pub mod Terms
pub mod Meaning
pub mod Gather
pub mod Refine
pub mod Sentences
pub mod Prefix
