-- ===== src/Sht11/Tests.antt =====
-- The humidity sensor of avr/fw/sht11_sm.cpp and avr/fw/main.cpp at concrete inputs.
use byt.Base.{ℕ, ◌≡◌, refl, Bool, true, false, replicate, arith}
use byt.Sht11.Wire.{idle, Sht, init, send_byte, recv_byte, reset}
use byt.Sht11.Bytes.{hear, hear-send_byte}
use byt.Sht11.Settle.{run_settle, rests, requests-settle}
use byt.Sht11.Cycle.{meas_rh_read_crc, Sht11}

abbrev wires : Sht
wires = record {
  state = idle;
  byte = 202;
  bit_cnt = 0;
  with_ack = false;
  clk_dir = true;
  clk = false;
  pulled = false;
}

abbrev sensor : Sht11
sensor = record {
  state_l2 = meas_rh_read_crc;
  t0 = 0;
  temp = 6500;
  rh = 1200;
  wire = wires;
  pv = record { io_data = replicate 6 0; mob_marked_tx = 0 };
  mob_idx = 3;
  iodata_idx = 2;
}

hear-send_byte_example : hear 24 0 (send_byte 3 wires) ≡ 3
hear-send_byte_example = hear-send_byte 3 wires (omega arith) refl

abbrev line_high : ℕ → Bool
line_high n = true

requests-settle_example :
    (rests (run_settle 29 line_high (init wires)).state ≡ true)
    × (rests (run_settle 29 line_high (send_byte 3 wires)).state ≡ true)
    × (rests (run_settle 29 line_high (recv_byte false wires)).state ≡ true)
    × (rests (run_settle 29 line_high (reset wires)).state ≡ true)
requests-settle_example = requests-settle line_high 3 false wires (omega arith)
