-- ===== src/Pru.antt =====
-- The firmware of the programmable real-time unit, pru/: what it answers to the daemon
-- (pru/rpm_iface.h and the sending functions of pru/main.c) and its timer.
mod Tests
pub mod Opentherm
pub mod Transmit
pub mod Receive
pub mod Wire
pub mod Message
pub mod Bounds
pub mod Safety
pub mod Progress
pub mod Master
use byt.Base.{ℕ, ◌+◌, ◌-◌, ◌*◌, ◌%◌, ◌^◌, Bool, List, ltb}

-- `ResponseCode`.
pub data ResponseCode : Type 0 where
  rsp_error ow_presence_ok ow_bus_failure0 ow_bus_failure1 ow_no_presence ow_bus_failure_timeout :
      ResponseCode
  ow_read_bits_ok ow_read_bits_failure ow_write_bits_ok ow_write_bits_failure : ResponseCode
  ow_search_result0 ow_search_result1 ow_search_result11 ow_search_result00 : ResponseCode
  ot_no_response ot_frame_error ot_bus_error ot_ok : ResponseCode

-- A message to the daemon: `send_status`, `send_status_with_param`, `send_status_with_data`, and
-- `ot_send_frame`.
pub data Reply : Type 0 where
  status : ResponseCode → Reply
  param : ResponseCode → ℕ → Reply
  bytes : ResponseCode → List ℕ → Reply
  frame : ResponseCode → ℕ → Reply

-- `US2TICK`.
abbrev pub us_ticks : ℕ → ℕ
us_ticks us = us * 200

-- `timer() - t0` of 32 bits.
unfoldable pub elapsed : ℕ → ℕ → ℕ
elapsed now t0 = (now + 2 ^ 32 - t0) % 2 ^ 32

-- `timeout` and `timeout_since`.
unfoldable pub timeout : ℕ → ℕ → ℕ → Bool
unfolding elapsed
timeout now t0 delay = ltb delay (elapsed now t0)
