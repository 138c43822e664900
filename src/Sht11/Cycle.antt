-- ===== src/Sht11/Cycle.antt =====
-- The measuring cycle of the humidity sensor: the namespace sht11 of avr/fw/main.cpp. `now` is the
-- coarse clock at the call and `line` what the data wire shows.
use byt.Base.{ℕ, ◌+◌, ◌*◌, ◌/◌, ◌%◌, Bool, true, false, not, ◌||◌, ◌==◌, if◌then◌else◌, bit_or}
use byt.Clock.{dur_ms, is_timeout}
use byt.Crc.{calc_crc_8bit, reverse_bits}
use byt.Pv.{Pv, mark_mob_tx, read_u16, write_u16}
use byt.Sht11.Wire.{State, idle, error, Sht, init, send_byte, recv_byte, reset, do_sm_l1}

pub data StateL2 : Type 0 where
  disabled relax meas_t_init meas_t_send_cmd meas_t_read_h meas_t_read_l meas_t_read_crc : StateL2
  meas_rh_init meas_rh_send_cmd meas_rh_read_h meas_rh_read_l meas_rh_read_crc clear_error : StateL2

pub record Sht11 : Type 0 where
  pub state_l2 : StateL2
  pub t0 : ℕ
  pub temp : ℕ  -- sTemp
  pub rh : ℕ  -- sRH
  pub wire : Sht
  pub pv : Pv
  pub mob_idx : ℕ
  pub iodata_idx : ℕ

-- `Sensorion::cInvalidValue`.
abbrev pub invalid_value : ℕ
invalid_value = 0xFFFE

abbrev pub cmd_meas_temp : ℕ
cmd_meas_temp = 3

abbrev pub cmd_meas_rh : ℕ
cmd_meas_rh = 5

unfoldable pub timeout : ℕ → ℕ → Sht11 → Bool
timeout ms now s = is_timeout now s.t0 (dur_ms ms)

-- The temperature is the first value of the object, the humidity the second.
unfoldable pub update_pvs : Sht11 → Sht11
update_pvs s =
    let d = write_u16 s.pv.io_data s.iodata_idx s.temp in
    let d = write_u16 d (s.iodata_idx + 2) s.rh in
    if not (read_u16 s.pv.io_data s.iodata_idx == s.temp)
      || not (read_u16 s.pv.io_data (s.iodata_idx + 2) == s.rh)
    then record s { pv = mark_mob_tx s.mob_idx (record s.pv { io_data = d }) }
    else s

abbrev pub is_idle : State → Bool
is_idle idle = true
is_idle _ = false

abbrev pub is_error : State → Bool
is_error error = true
is_error _ = false

unfoldable pub to_relax : ℕ → Sht11 → Sht11
to_relax now s = record s { t0 = now; state_l2 = relax }

unfoldable pub enable_l2 : Sht11 → Sht11
enable_l2 s = record s { state_l2 = relax }

unfoldable pub to_clear_error : Sht11 → Sht11
to_clear_error s = record s { wire = reset s.wire; state_l2 = clear_error }

-- `do_smL1()` as the cycle calls it.
unfoldable pub step_wire : Bool → Sht11 → Sht11
step_wire line s = record s { wire = do_sm_l1 line s.wire }

-- `eval_state_helper`: the flag says that the wires are idle.
unfoldable pub eval_state_helper : ℕ → Bool → Sht11 → Bool × Sht11
unfolding step_wire to_relax
eval_state_helper now line s =
    let s = step_wire line s in
    if is_idle s.wire.state
    then (true, s)
    else if is_error s.wire.state
    then (false, to_relax now s)
    else (false, s)

unfoldable pub on_relax : ℕ → Bool → Sht11 → Sht11
unfolding step_wire to_clear_error
on_relax now line s =
    let t = step_wire line s in
    if timeout 5000 now s
    then if is_idle t.wire.state
      then record t { wire = init t.wire; state_l2 = meas_t_init }
      else to_clear_error t
    else s

-- `MeasT_Init` and `MeasRH_Init`.
unfoldable pub on_init : ℕ → StateL2 → ℕ → Bool → Sht11 → Sht11
unfolding eval_state_helper
on_init cmd next now line s =
    let (ready, s) = eval_state_helper now line s in
    if ready then record s { wire = send_byte cmd s.wire; t0 = now; state_l2 = next } else s

-- `MeasT_SendCmd` and `MeasRH_SendCmd`: the sensor measures, for half a second at most.
unfoldable pub on_send_cmd : StateL2 → ℕ → Bool → Sht11 → Sht11
unfolding step_wire to_relax to_clear_error
on_send_cmd next now line s =
    let s = step_wire line s in
    if is_idle s.wire.state
    then record s { wire = recv_byte true s.wire; state_l2 = next }
    else if is_error s.wire.state
    then to_relax now s
    else if timeout 500 now s
    then to_clear_error s
    else s

unfoldable pub on_meas_t_read_h : ℕ → Bool → Sht11 → Sht11
unfolding eval_state_helper
on_meas_t_read_h now line s =
    let (ready, s) = eval_state_helper now line s in
    if ready
    then record s {
      temp = s.wire.byte * 256;
      wire = recv_byte true s.wire;
      state_l2 = meas_t_read_l;
    }
    else s

unfoldable pub on_meas_t_read_l : ℕ → Bool → Sht11 → Sht11
unfolding eval_state_helper
on_meas_t_read_l now line s =
    let (ready, s) = eval_state_helper now line s in
    if ready
    then record s {
      temp = bit_or s.temp s.wire.byte;
      wire = recv_byte false s.wire;
      state_l2 = meas_t_read_crc;
    }
    else s

-- The checksum of a value, as the sensor sends it.
unfoldable pub value_crc : ℕ → ℕ → ℕ
value_crc cmd v =
    reverse_bits (calc_crc_8bit (calc_crc_8bit (calc_crc_8bit 0 cmd) (v / 256)) (v % 256))

unfoldable pub on_meas_t_read_crc : ℕ → Bool → Sht11 → Sht11
unfolding eval_state_helper to_clear_error value_crc
on_meas_t_read_crc now line s =
    let (ready, s) = eval_state_helper now line s in
    let good = value_crc cmd_meas_temp s.temp == s.wire.byte in
    if ready
    then if good
      then record s { t0 = now; wire = init s.wire; state_l2 = meas_rh_init }
      else to_clear_error s
    else s

unfoldable pub on_meas_rh_read_h : ℕ → Bool → Sht11 → Sht11
unfolding eval_state_helper
on_meas_rh_read_h now line s =
    let (ready, s) = eval_state_helper now line s in
    if ready
    then record s {
      rh = s.wire.byte * 256;
      wire = recv_byte true s.wire;
      state_l2 = meas_rh_read_l;
    }
    else s

unfoldable pub on_meas_rh_read_l : ℕ → Bool → Sht11 → Sht11
unfolding eval_state_helper
on_meas_rh_read_l now line s =
    let (ready, s) = eval_state_helper now line s in
    if ready
    then record s {
      rh = bit_or s.rh s.wire.byte;
      wire = recv_byte false s.wire;
      state_l2 = meas_rh_read_crc;
    }
    else s

unfoldable pub on_meas_rh_read_crc : ℕ → Bool → Sht11 → Sht11
unfolding eval_state_helper to_clear_error value_crc update_pvs
on_meas_rh_read_crc now line s =
    let (ready, s) = eval_state_helper now line s in
    let good = value_crc cmd_meas_rh s.rh == s.wire.byte in
    if ready
    then if good
      then record (update_pvs (record s { t0 = now })) { state_l2 = relax }
      else to_clear_error s
    else s

unfoldable pub on_clear_error : ℕ → Bool → Sht11 → Sht11
unfolding step_wire to_relax update_pvs
on_clear_error now line s =
    let s = step_wire line (update_pvs (record s { rh = invalid_value; temp = invalid_value })) in
    if is_idle s.wire.state || is_error s.wire.state then to_relax now s else s

-- The switch of `do_sm`.
unfoldable pub do_sm_in : StateL2 → ℕ → Bool → Sht11 → Sht11
do_sm_in disabled now line s = s
do_sm_in relax now line s = on_relax now line s
do_sm_in meas_t_init now line s = on_init cmd_meas_temp meas_t_send_cmd now line s
do_sm_in meas_t_send_cmd now line s = on_send_cmd meas_t_read_h now line s
do_sm_in meas_t_read_h now line s = on_meas_t_read_h now line s
do_sm_in meas_t_read_l now line s = on_meas_t_read_l now line s
do_sm_in meas_t_read_crc now line s = on_meas_t_read_crc now line s
do_sm_in meas_rh_init now line s = on_init cmd_meas_rh meas_rh_send_cmd now line s
do_sm_in meas_rh_send_cmd now line s = on_send_cmd meas_rh_read_h now line s
do_sm_in meas_rh_read_h now line s = on_meas_rh_read_h now line s
do_sm_in meas_rh_read_l now line s = on_meas_rh_read_l now line s
do_sm_in meas_rh_read_crc now line s = on_meas_rh_read_crc now line s
do_sm_in clear_error now line s = on_clear_error now line s

unfoldable pub do_sm : ℕ → Bool → Sht11 → Sht11
unfolding do_sm_in
do_sm now line s = do_sm_in s.state_l2 now line s
