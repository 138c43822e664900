-- ===== src/Scd4x/Tests.antt =====
-- The CO2 sensor of avr/fw/scd4x_sm.cpp and avr/fw/main.cpp at concrete inputs.
use byt.Base.{◌≡◌, refl, true, false, [], ◌∷◌, replicate, ltb, if◌then◌else◌, get_or, arith}
use byt.Clock.{is_timeout, dur_ms}
use byt.Crc.{check_crc_word, calc_crc_8bit, crc_round, crc_rounds, shift_crc, crc_word}
use byt.Scd4x.Twi.{
  idle, pending_io, error, stop_cond, Twi, rep_start, mr_sla_ack, sla_r, sla_w,
  init_i2c_generic_wr_rd, run, check_crc_single_item, data_ready, check_item, item_val, swap_bytes,
}
use byt.Scd4x.Transfer.{pushed, write_session, recv, exchange, exchange_lem, exchange_single}
use byt.Scd4x.Cycle.{
  disabled, relaxing, waiting_for_ready, reading, Scd, error_handle, timeout, do_sm_in,
  on_initializing, on_relaxing, do_sm_l2, start_periodic_meas,
}
use byt.Scd4x.Polling.{Reach, here, next, tick, starts, others, never_ready_polls_on}

abbrev bus : Twi
bus = record {
  state = idle;
  buf = 0x80 ∷ 0x00 ∷ 0xA2 ∷ replicate 6 0;
  byte_in = 0;
  byte_req_wr = 0;
  byte_req_rd = 0;
  twcr = stop_cond;
  sent = [];
  twbr = 0;
  twsr = 0;
  ddrd = 0;
  portd = 0;
  ddrg = 0;
  portg = 0;
}

exchange_lem_example :
    let t = exchange 2 (7 ∷ 8 ∷ 9 ∷ []) bus in
    (t.state ≡ idle)
    × (t.twcr ≡ stop_cond)
    × (t.sent ≡ sla_r ∷ pushed bus.buf 0 2 (sla_w ∷ bus.sent))
    × (get_or t.buf 1 0 ≡ (if ltb 1 3 then get_or (7 ∷ 8 ∷ 9 ∷ []) 1 0 else get_or bus.buf 1 0))
exchange_lem_example = exchange_lem 2 7 8 (9 ∷ []) bus 1 (omega arith)

exchange_single_example :
    let t =
      run
        ((rep_start, 0) ∷ (mr_sla_ack, 0) ∷ [])
        (run (write_session 2) (init_i2c_generic_wr_rd 2 1 bus)) in
    ((recv (7 ∷ []) t).state ≡ pending_io) × ((recv (7 ∷ 8 ∷ []) t).state ≡ error)
exchange_single_example = exchange_single 2 7 8 bus

abbrev sensor : Scd
sensor = record {
  state_l2 = disabled;
  t0 = 0;
  first_n = 5;
  wait_ready_count = 0;
  err_count = 4;
  twi = bus;
  pv = record { io_data = replicate 8 0; mob_marked_tx = 0 };
  mob_idx = 2;
  iodata_idx = 1;
}

abbrev failed : Scd
failed = record sensor { state_l2 = reading; twi = record bus { state = error } }

abbrev broken : Twi
broken = record bus { state = error }

-- Three words of zeros with their checksums.
abbrev answered : Scd
answered = record sensor {
  twi = record bus { buf = 0 ∷ 0 ∷ 0x81 ∷ 0 ∷ 0 ∷ 0x81 ∷ 0 ∷ 0 ∷ 0x81 ∷ [] };
}

abbrev started : Scd
started = record (start_periodic_meas sensor) { twi = bus }

abbrev asked : Scd
asked = do_sm_l2 80 (do_sm_l2 0 started)

abbrev polled : Scd
polled = record asked { twi = bus }

polled-Reach : Reach sensor polled
polled-Reach =
    next
      (next (next (next (next here starts) (others bus (start_periodic_meas sensor).pv)) (tick 0))
        (tick 80))
      (others bus asked.pv)

polled_state : polled.state_l2 ≡ waiting_for_ready
unfolding do_sm_l2 do_sm_in on_initializing on_relaxing start_periodic_meas timeout is_timeout
    dur_ms error_handle
polled_state = refl

polled_crc : check_crc_single_item bus ≡ true
unfolding check_crc_single_item check_item check_crc_word calc_crc_8bit crc_round crc_rounds
    shift_crc crc_word
polled_crc = refl

polled_not_ready : data_ready bus ≡ false
unfolding data_ready item_val swap_bytes
polled_not_ready = refl

never_ready_polls_on_example :
    let u = do_sm_l2 80 polled in
    (u.state_l2 ≡ relaxing) × (u.err_count ≡ polled.err_count) × (u.pv ≡ polled.pv)
never_ready_polls_on_example =
    never_ready_polls_on 80 refl polled-Reach polled_state refl polled_crc polled_not_ready
