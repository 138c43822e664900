-- ===== src/Svc/Sensor.antt =====
-- The command `CmdSCD41Test` of `svc` (avr/fw/main.cpp), which drives the CO2 sensor by hand.
use byt.Base.{
  ℕ, zero, suc, ◌+◌, ◌-◌, ◌*◌, ◌&&◌, ◌||◌, take, drop, ltb, leb, ◌==◌, if◌then◌else◌, get_or,
  bit_and, to_nat,
}
use byt.Meas.{put_bytes}
use byt.Scd4x.Twi.{
  State, idle, pending_io, error, Twi, enable, disable, init_i2c_generic_wr_rd, check_crc_meas_data,
  check_crc_single_item, init_start_periodic_meas, init_get_status, init_read_meas,
}
use byt.Scd4x.Cycle.{
  StateL2, disabled, initializing, relaxing, waiting_for_ready, relaxing_before_read, reading,
  recover_error, recover_error_restart_meas, recover_error_power_off, recover_error_power_on,
  recover_error_power_on_relaxing, Scd, start_periodic_meas, disable_l2, update_pvs_with_invalid,
}
use byt.Svc.State.{Fw, arg, reply_len, push, refuse, with_scd}

abbrev pub state_number : State → ℕ
state_number idle = 0
state_number pending_io = 1
state_number error = 2

abbrev pub state_l2_number : StateL2 → ℕ
state_l2_number disabled = 0
state_l2_number initializing = 1
state_l2_number relaxing = 2
state_l2_number waiting_for_ready = 3
state_l2_number relaxing_before_read = 4
state_l2_number reading = 5
state_l2_number recover_error = 6
state_l2_number recover_error_restart_meas = 7
state_l2_number recover_error_power_off = 8
state_l2_number recover_error_power_on = 9
state_l2_number recover_error_power_on_relaxing = 10

-- A call that changes the transfer only.
unfoldable pub on_twi : (Twi → Twi) → Scd → Scd
on_twi f s = record s { twi = f s.twi }

unfoldable pub switch_off : Scd → Scd
unfolding on_twi
switch_off s = update_pvs_with_invalid (disable_l2 (on_twi disable s))

-- Subcommand 0: the sensor is switched on, started, or switched off.
unfoldable pub scd_enable : Fw → Fw
unfolding arg refuse reply_len with_scd on_twi switch_off
scd_enable s =
    let r =
      if s.msglen == 3 && arg 2 s == 1
      then with_scd (on_twi enable) s
      else if s.msglen == 3 && arg 2 s == 2
      then with_scd start_periodic_meas s
      else if s.msglen == 3 && arg 2 s == 0
      then with_scd switch_off s
      else refuse s in
    reply_len 2 r

-- The bytes of the message from `from` on go to the front of the transfer's buffer.
unfoldable pub load : ℕ → Fw → Twi → Twi
load from s t = record t { buf = put_bytes 0 (take (s.msglen - from) (drop from s.msg)) t.buf }

unfoldable pub scd_write : Fw → Fw
unfolding reply_len with_scd on_twi load
scd_write s =
    reply_len 1 (with_scd (on_twi (λ t. init_i2c_generic_wr_rd (s.msglen - 2) 0 (load 2 s t))) s)

-- `0 < len_rd <= 9` as a signed byte.
unfoldable pub scd_write_read : Fw → Fw
unfolding arg refuse reply_len with_scd on_twi load
scd_write_read s =
    let len_rd = arg 2 s in
    let r =
      if leb len_rd 9 && ltb 0 len_rd
      then with_scd (on_twi (λ t. init_i2c_generic_wr_rd (s.msglen - 3) len_rd (load 3 s t))) s
      else refuse s in
    reply_len 1 r

-- `n` bytes of the buffer from `i` on.
unfoldable pub push_buf : ℕ → ℕ → Fw → Fw
unfolding push
push_buf zero i s = s
push_buf (suc n) i s = push_buf n (i + 1) (push (get_or s.scd.twi.buf i 0) s)

-- A length or an offset is a signed byte: from 128 on it is negative.
unfoldable pub scd_read : Fw → Fw
unfolding arg refuse reply_len push_buf
scd_read s =
    let len = if ltb s.msglen 3 || arg 2 s == 0 then 7 else arg 2 s in
    let offset = if ltb s.msglen 4 then 0 else arg 3 s in
    let r = reply_len 1 s in
    if ltb 9 (len + offset) || (leb 128 offset || (leb 128 len || ltb 7 len))
    then refuse r
    else push_buf len offset r

unfoldable pub scd_diag : Fw → Fw
unfolding reply_len push
scd_diag s =
    let crcs =
      to_nat (check_crc_meas_data s.scd.twi) + 2 * to_nat (check_crc_single_item s.scd.twi) in
    let r = push (state_number s.scd.twi.state) (reply_len 1 s) in
    push (state_l2_number s.scd.state_l2) (push crcs r)

unfoldable pub scd_sub : Fw → Fw
unfolding arg refuse reply_len with_scd on_twi
scd_sub s =
    let sub = arg 1 s in
    if sub == 0
    then scd_enable s
    else if sub == 1
    then scd_write s
    else if sub == 2
    then scd_write_read s
    else if sub == 3
    then scd_read s
    else if sub == 4
    then scd_diag s
    else if sub == 5
    then with_scd (on_twi init_start_periodic_meas) s
    else if sub == 6
    then with_scd (on_twi init_get_status) s
    else if sub == 7
    then with_scd (on_twi init_read_meas) s
    else refuse (reply_len 2 s)

unfoldable pub scd41_test : Fw → Fw
unfolding refuse scd_sub
scd41_test s = if bit_and s.features 1 == 0 then refuse s else scd_sub s
