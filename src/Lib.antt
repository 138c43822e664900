-- ===== src/Lib.antt =====
-- The verification library of the home automation firmware and daemon.
--
-- The firmware (avr/fw) runs on a node of the CAN bus. Its main loop (`run` of avr/fw/main.cpp)
-- exchanges the process image `gIOData` with the bus and calls the state machines of the sensors
-- every 4 ms; a sensor's state machine leaves its values in the image and marks the message object
-- that carries them. The daemon (bytd) and the tools are at the other end of the bus.
--
-- What models which part:
--   Base      lists, Boolean tests, bits of bytes
--   Gpio      avr/fw/gpio.cpp: pins and raw ports; a port register is a number below 256
--   Clock     avr/fw/clock.h: the coarse clock; its reading is an argument `now` of the callers
--   Crc       the checksums: `calc_crc` and its table (avr/fw/ow_sm.cpp), `check_crc_word`
--             (avr/fw/scd4x_sm.cpp), `calc_crc_8bit` and `reverse_bits` (avr/fw/main.cpp)
--   Pv        the process image and the marks of avr/fw/main.cpp
--   Ow        avr/fw/ow_sm.cpp: the 1-wire master. `Ow.Bus.Ow` has the static variables, the pin,
--             the registers of timer 0 and a record of what the code did to the line;
--             `Ow.Ops.ow_sm_do` is the interrupt handler and `run` a sequence of interrupts, each
--             with what the line shows then
--   Meas      `measure_ow_temp_sm` of avr/fw/main.cpp, which drives Ow
--   Scd4x     the CO2 sensor: `Twi` is avr/fw/scd4x_sm.cpp, with the statuses of the TWI hardware
--             as inputs, and `Cycle` is `do_smL2` of avr/fw/main.cpp, which drives it
--   Sht11     the humidity sensor: `Wire` is avr/fw/sht11_sm.cpp and sht11_swi2c.cpp, with the level
--             of the data wire as input, and `Cycle` is `do_sm` of avr/fw/main.cpp
--   Io        debounced inputs, outputs and message objects, from `onTimer4ms096`,
--             `iterateOutputObjs` and `run` of avr/fw/main.cpp
--   Pwm       avr/fw/pwm16_at90.cpp: the PWM outputs, and how `iterateOutputObjs` sets them
--   Svc       the service protocol of avr/fw/main.cpp: `Svc.State.Fw` is the state that its commands
--             reach, `Svc.Dispatch` has `can_rx_svc`, `svc` and `can_tx_svc`, and Config, Ports, Bus
--             and Sensor have the commands
--   Node      `run` and `onTimer4ms096` of avr/fw/main.cpp: a round of the loop over all of the
--             above, the frames, the clock and the lines being inputs
--   Boot      avr/bootloader/bootloader.cpp: messages, the page and its programming, the timeout
--   Can       bytd/src/candata.cpp, candata.h and canbus.cpp: the daemon's outputs and inputs on the
--             CAN bus, and the queue of one frame; the socket is outside
--   Ot        bytd/src/OtFrame.cpp, the fields of a frame, and of bytd/src/OpenTherm.cpp the parity
--             and `transmit`
--   Switch    bytd/src/Vypinace.cpp: the double wall switches; the timer is outside
--   Device    bytd/src/Pumpa.cpp and OnOffDevice.cpp, over an output that reads back what was written
--   Reku      rekuperacia_fw/main.c, the firmware of the heat recovery unit: `Reku.Reku` has the
--             variables of the serial line and the outputs, `Measure` the temperatures and speeds,
--             `Loop` a round of the main loop; `Daemon` is bytd/src/Reku.cpp, the other end of the line
--   Pru       the firmware of the real-time unit: `Opentherm` is pru/opentherm_sm.c, `Wire` and
--             `Master` are pru/ow_sm.c, `Message` is pru/main.c
--   Therm     bytd/src/OwThermNet.cpp: the requests of the daemon to the real-time unit, and in
--             `Therm.Rom` the search of the codes of the devices; the answers are an operation of `Link`, and
--             `Therm.Bus` is a bus with devices that answer as pru/ow_sm.c reports them
--
-- Static variables are the fields of a record, an 8-bit variable keeps its wrap-around where the
-- code relies on it, and a read of a list out of its range gives 0 where the theorems do not
-- exclude it. Only `Therm.Rom.search` runs on fuel, a number of rounds, and its theorems need
-- no more than the number of different codes and one; what other operations take is a number of
-- interrupts or calls in the theorems on termination.
--
-- Not modelled: the CAN controller, the TWI hardware, the flash and the sensors themselves, which
-- are inputs or are listed as calls; `main` of avr/fw/main.cpp, which lays out the tables in memory,
-- and writes past a table's end or past the service message's eight bytes, which change nothing here
-- (`Node.Safety.Fits` and `is_configured` name the inputs without them); the slow PWM controller (avr/pwm); of the
-- daemon (bytd/src) the heating control, the meters, the lights, the
-- floating-point values of the temperatures, `read_rom` (not called) and its shell; the
-- Python scripts, which are in another language. A timer shows one value within a call.
pub mod Base
pub mod Gpio
pub mod Crc
pub mod Ow
pub mod Clock
pub mod Pv
pub mod Scd4x
pub mod Meas
pub mod Sht11
pub mod Io
pub mod Pwm
pub mod Reku
pub mod Pru
pub mod Svc
pub mod Therm
pub mod Node
pub mod Boot
pub mod Can
pub mod Ot
pub mod Switch
pub mod Device
