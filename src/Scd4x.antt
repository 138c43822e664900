-- ===== src/Scd4x.antt =====
-- The CO2 sensor: the transfers over the two-wire bus (avr/fw/scd4x_sm.cpp) and the measuring
-- cycle above them (the second `scd4x` namespace of avr/fw/main.cpp).
mod Tests
pub mod Twi
pub mod Transfer
pub mod Cycle
pub mod Recovery
pub mod Polling
