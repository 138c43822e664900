-- ===== src/Svc/Sample.antt =====
-- A node of avr/fw/main.cpp with nothing configured, for the tests.
use byt.Base.{true, [], ◌∷◌, replicate}
use byt.Gpio.{Ports}
use byt.Ow.Invariant.{boot}
use byt.Scd4x.Twi.{idle, stop_cond, Twi}
use byt.Scd4x.Cycle.{disabled, Scd}
use byt.Svc.Config.{no_mob}
use byt.Svc.State.{Fw}
use byt.Svc.Dispatch.{Env}

abbrev off : Ports
off = record { a = 0; b = 0; c = 0; d = 0; e = 0; f = 0; g = 0 }

abbrev pub bus : Twi
bus = record {
  state = idle;
  buf = replicate 9 0;
  byte_in = 0;
  byte_req_wr = 0;
  byte_req_rd = 0;
  twcr = stop_cond;
  sent = [];
  twbr = 0;
  twsr = 0;
  ddrd = 0;
  portd = 0;
  ddrg = 0;
  portg = 0;
}

abbrev pub sensor : Scd
sensor = record {
  state_l2 = disabled;
  t0 = 0;
  first_n = 5;
  wait_ready_count = 0;
  err_count = 0;
  twi = bus;
  pv = record { io_data = []; mob_marked_tx = 0 };
  mob_idx = 0;
  iodata_idx = 0;
}

abbrev pub node : Fw
node = record {
  stage = 0;
  msg = replicate 8 0;
  msglen = 0;
  sent = [];
  dig_in_count = 0;
  dig_out_count = 0;
  ow_t_count = 2;
  io_data_count = 4;
  mob_first_tx = 1;
  mob_count = 3;
  features = 1;
  pwm_count = 0;
  dig_in_obj = [];
  dig_out_obj = [];
  ow_t_obj = [];
  ow_temp_sensors = replicate 2 [];
  pwm_obj = [];
  sht_mob_idx = 0;
  sht_iodata_idx = 0;
  mob_end_idx = 1 ∷ 3 ∷ 4 ∷ [];
  mobs = replicate 15 no_mob;
  canie = 0;
  gpio = record { ddr = off; port = off; pin = off };
  timer3 = record { tccr3a = 0; tccr3b = 0; icr3 = 0; ddre = 0; ocr3a = 0; ocr3b = 0; ocr3c = 0 };
  ow = boot;
  scd = sensor;
  pv = record { io_data = replicate 4 0; mob_marked_tx = 0 };
}

abbrev pub outside : Env
outside = record { active = true; cantec = 1; canrec = 2; mcusr = 3; git_hash = 0x1234; built = 5 }
