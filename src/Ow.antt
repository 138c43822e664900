-- ===== src/Ow.antt =====
-- avr/fw/ow_sm.cpp: the 1-wire bus master, a state machine that the overflow interrupt of timer 0
-- drives. `Bus` has the pin and the timer, `Ops` the commands and the interrupt handler.
pub mod Bus
pub mod Ops
pub mod Timing
pub mod Invariant
pub mod Safety
pub mod Progress
pub mod Reset
pub mod Read
pub mod Write
pub mod Search
mod Tests
