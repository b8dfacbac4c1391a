-- ===== src/Gpio.antt =====
-- projects/gpio_led_test/gpio_led_test.c: the exerciser of the lights and the buttons.
pub mod Text
pub mod Strings
pub mod Devices
pub mod Numerals
pub mod Lights
pub mod Exerciser
pub mod Tests
