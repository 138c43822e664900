-- ===== src/Scd4x/Cycle.antt =====
-- The measuring cycle of the CO2 sensor: `do_smL2` of the second `scd4x` namespace of
-- avr/fw/main.cpp. `now` is the coarse clock at the call. What the calls do to the bus is in
-- `Twi`; the objects of the process image are in `pv`.
use byt.Base.{ℕ, ◌+◌, ◌%◌, Bool, true, false, not, ◌&&◌, ◌||◌, ltb, leb, ◌==◌, if◌then◌else◌}
use byt.Clock.{dur_ms, is_timeout}
use byt.Pv.{Pv, mark_mob_tx, read_u16, write_u16}
use byt.Scd4x.Twi.{
  State, idle, pending_io, error, Twi, enable, init_get_status, init_start_periodic_meas,
  init_stop_periodic_meas, init_read_meas, power_off, power_on, check_crc_single_item,
  check_crc_meas_data, data_ready, get_temp, get_rh, get_co2,
}

pub data StateL2 : Type 0 where
  disabled initializing relaxing waiting_for_ready relaxing_before_read reading : StateL2
  recover_error recover_error_restart_meas recover_error_power_off : StateL2
  recover_error_power_on recover_error_power_on_relaxing : StateL2

pub record Scd : Type 0 where
  pub state_l2 : StateL2
  pub t0 : ℕ
  pub first_n : ℕ  -- int8_t
  pub wait_ready_count : ℕ  -- int8_t
  pub err_count : ℕ  -- int8_t, as its bit pattern
  pub twi : Twi
  pub pv : Pv
  pub mob_idx : ℕ
  pub iodata_idx : ℕ

-- `Sensorion::cInvalidValue`.
abbrev pub invalid_value : ℕ
invalid_value = 0xFFFE

abbrev pub skip_first_n : ℕ
skip_first_n = 5

abbrev pub wait_ready_count_max : ℕ
wait_ready_count_max = 10

abbrev pub err_count_max : ℕ
err_count_max = 5

unfoldable pub timeout : ℕ → ℕ → Scd → Bool
unfolding is_timeout dur_ms
timeout ms now s = is_timeout now s.t0 (dur_ms ms)

unfoldable pub reset_time : ℕ → Scd → Scd
reset_time now s = record s { t0 = now }

unfoldable pub start_periodic_meas : Scd → Scd
start_periodic_meas s = record s {
  twi = init_start_periodic_meas s.twi;
  state_l2 = initializing;
  first_n = 0;
}

-- The three values of the object in the image.
unfoldable pub value_t : Scd → ℕ
value_t s = read_u16 s.pv.io_data s.iodata_idx

unfoldable pub value_rh : Scd → ℕ
value_rh s = read_u16 s.pv.io_data (s.iodata_idx + 2)

unfoldable pub value_co2 : Scd → ℕ
value_co2 s = read_u16 s.pv.io_data (s.iodata_idx + 4)

-- The common body of `update_pvs` and `update_pvs_with_invalid`: values that differ are stored, and
-- the message object is marked.
unfoldable pub publish : ℕ → ℕ → ℕ → Scd → Scd
unfolding value_t value_rh value_co2
publish temp rh co2 s =
    let d = write_u16 s.pv.io_data s.iodata_idx temp in
    let d = write_u16 d (s.iodata_idx + 2) rh in
    let d = write_u16 d (s.iodata_idx + 4) co2 in
    if not (value_t s == temp) || (not (value_rh s == rh) || not (value_co2 s == co2))
    then record s { pv = mark_mob_tx s.mob_idx (record s.pv { io_data = d }) }
    else s

unfoldable pub update_pvs : Scd → Scd
update_pvs s = publish (get_temp s.twi) (get_rh s.twi) (get_co2 s.twi) s

unfoldable pub update_pvs_with_invalid : Scd → Scd
update_pvs_with_invalid s = publish invalid_value invalid_value invalid_value s

unfoldable pub recover_error_now : ℕ → Scd → Scd
recover_error_now now s = record s { t0 = now; state_l2 = recover_error }

-- `++errCount < errCountMax` as signed bytes.
unfoldable pub is_below_max : ℕ → Bool
is_below_max e = ltb e err_count_max || leb 128 e

-- `error_handle`: the flag says that the caller has to leave the state that was chosen.
unfoldable pub error_handle : ℕ → Scd → Bool × Scd
unfolding recover_error_now is_below_max
error_handle now s =
    let e = (s.err_count + 1) % 256 in
    let s = record s { err_count = e } in
    let off = record s { twi = power_off s.twi; state_l2 = recover_error_power_off; t0 = now } in
    if is_below_max e
    then (false, s)
    else if e == err_count_max
    then (true, recover_error_now now s)
    else (true, off)

unfoldable pub relax : ℕ → Scd → Scd
relax now s = record s { t0 = now; state_l2 = relaxing }

abbrev pub is_pending : State → Bool
is_pending pending_io = true
is_pending _ = false

abbrev pub is_error : State → Bool
is_error error = true
is_error _ = false

abbrev pub is_idle : State → Bool
is_idle idle = true
is_idle _ = false

-- The end of a failed round: the values become invalid, and the error is counted.
unfoldable pub fail_round : ℕ → Scd → Scd
fail_round now s =
    let (leave, s) = error_handle now (update_pvs_with_invalid s) in
    if leave then s else relax now s

unfoldable pub on_initializing : ℕ → Scd → Scd
on_initializing now s =
    let timed = record s { t0 = now } in
    let (leave, failed) = error_handle now timed in
    if is_pending s.twi.state
    then s
    else if is_error s.twi.state
    then (if leave then failed else record failed { state_l2 = relaxing })
    else record timed { state_l2 = relaxing }

unfoldable pub on_relaxing : ℕ → Scd → Scd
on_relaxing now s =
    if timeout 5000 now s
    then record s {
      twi = init_get_status s.twi;
      state_l2 = waiting_for_ready;
      wait_ready_count = 0;
    }
    else s

unfoldable pub on_waiting_for_ready : ℕ → Scd → Scd
on_waiting_for_ready now s =
    let counted = record s { wait_ready_count = s.wait_ready_count + 1 } in
    if is_pending s.twi.state
    then s
    else if is_idle s.twi.state && check_crc_single_item s.twi
    then if data_ready s.twi
      then record s { t0 = now; state_l2 = relaxing_before_read }
      else if ltb s.wait_ready_count wait_ready_count_max
      then relax now counted
      else fail_round now (recover_error_now now counted)
    else fail_round now s

unfoldable pub on_relaxing_before_read : ℕ → Scd → Scd
on_relaxing_before_read now s =
    if timeout 100 now s then record s { twi = init_read_meas s.twi; state_l2 = reading } else s

unfoldable pub on_reading : ℕ → Scd → Scd
on_reading now s =
    let kept =
      if ltb s.first_n skip_first_n then record s { first_n = s.first_n + 1 } else update_pvs s in
    if is_pending s.twi.state
    then s
    else if is_idle s.twi.state && check_crc_meas_data s.twi
    then relax now (record kept { err_count = 0 })
    else fail_round now s

unfoldable pub on_recover_error : ℕ → Scd → Scd
on_recover_error now s =
    if timeout 1000 now s
    then record s {
      twi = init_stop_periodic_meas s.twi;
      t0 = now;
      state_l2 = recover_error_restart_meas;
    }
    else s

unfoldable pub on_restart_meas : ℕ → Scd → Scd
on_restart_meas now s =
    if timeout 8000 now s && not (is_pending s.twi.state) then start_periodic_meas s else s

unfoldable pub on_power_off : ℕ → Scd → Scd
on_power_off now s =
    if timeout 8000 now s
    then record s { twi = power_on s.twi; t0 = now; state_l2 = recover_error_power_on }
    else s

unfoldable pub on_power_on : ℕ → Scd → Scd
on_power_on now s =
    if timeout 1000 now s
    then record s { t0 = now; twi = enable s.twi; state_l2 = recover_error_power_on_relaxing }
    else s

unfoldable pub on_power_on_relaxing : ℕ → Scd → Scd
on_power_on_relaxing now s = if timeout 8000 now s then start_periodic_meas s else s

-- The switch of `do_smL2`.
unfoldable pub do_sm_in : StateL2 → ℕ → Scd → Scd
do_sm_in disabled now s = s
do_sm_in initializing now s = on_initializing now s
do_sm_in relaxing now s = on_relaxing now s
do_sm_in waiting_for_ready now s = on_waiting_for_ready now s
do_sm_in relaxing_before_read now s = on_relaxing_before_read now s
do_sm_in reading now s = on_reading now s
do_sm_in recover_error now s = on_recover_error now s
do_sm_in recover_error_restart_meas now s = on_restart_meas now s
do_sm_in recover_error_power_off now s = on_power_off now s
do_sm_in recover_error_power_on now s = on_power_on now s
do_sm_in recover_error_power_on_relaxing now s = on_power_on_relaxing now s

unfoldable pub do_sm_l2 : ℕ → Scd → Scd
unfolding do_sm_in
do_sm_l2 now s = do_sm_in s.state_l2 now s

-- `disableL2`.
unfoldable pub disable_l2 : Scd → Scd
disable_l2 s = record s { state_l2 = disabled }
