-- ===== src/Node.antt =====
-- The whole node: the main loop of avr/fw/main.cpp (`run`, `onTimer4ms096`) over the components.
mod Tests
pub mod Loop
pub mod Safety
