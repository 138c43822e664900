-- ===== src/Svc.antt =====
-- The service protocol of avr/fw/main.cpp: `can_rx_svc`, `svc` and `can_tx_svc`.
mod Tests
pub mod Sample
pub mod State
pub mod Config
pub mod Ports
pub mod Bus
pub mod Sensor
pub mod Dispatch
pub mod Safety
pub mod Ready
pub mod Reply
pub mod Sent
pub mod Answer
pub mod Counts
