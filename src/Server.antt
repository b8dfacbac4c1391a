-- ===== src/Server.antt =====
-- projects/adc_test: server/adc-test-server.c, which sends the samples of the converter over a socket,
-- and client/adc-test-client_lnx.c, which receives them.
pub mod Stream
pub mod Control
pub mod Halves
pub mod Live
pub mod Modes
pub mod Start
pub mod Client
pub mod Words
pub mod Tests
