-- ===== src/Sht11.antt =====
-- The humidity sensor: avr/fw/sht11_sm.cpp (the bits of a transfer) and the namespace sht11 of
-- avr/fw/main.cpp (the measuring cycle).
mod Tests
pub mod Wire
pub mod Bytes
pub mod Settle
pub mod Cycle
pub mod Publish
