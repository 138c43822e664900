-- ===== src/Io.antt =====
-- The exchange of the process image: the input pins (`onTimer4ms096`), the output pins
-- (`iterateOutputObjs`) and the message objects of the CAN controller (`run`), avr/fw/main.cpp.
mod Tests
pub mod Debounce
pub mod Filter
pub mod Mobs
pub mod Frames
