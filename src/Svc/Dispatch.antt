-- ===== src/Svc/Dispatch.antt =====
-- Receiving a service message, carrying it out and answering: `can_rx_svc`, `svc` and `can_tx_svc` of
-- avr/fw/main.cpp.
use byt.Base.{
  ℕ, Bool, ◌&&◌, ◌||◌, List, ◌∷◌, take, ltb, leb, ◌==◌, if◌then◌else◌, get_or, set, bit_or,
}
use byt.Gpio.{set_ddr, set_port, set_pin, get_ddr, get_port, get_pin}
use byt.Meas.{put_bytes}
use byt.Svc.State.{Fw, reply_len, push, cmd_invalid}
use byt.Svc.Config.{
  no_mob, set_alloc_counts, get_alloc_counts, set_alloc_counts2, get_alloc_counts2, set_stage,
  set_ow_obj_params, set_ow_obj_rom_code, set_pwm_params, set_pwm_channel_params, set_dig_in_params,
  set_dig_out_params, set_scd41_params, set_sht11_params, set_can_mob, flush_all,
}
use byt.Svc.Ports.{test_get, test_set, get_git_version}
use byt.Svc.Bus.{ow_init, ow_get_reply_code, ow_get_data, ow_read_bits, ow_write_bits, ow_search}
use byt.Svc.Sensor.{scd41_test}

-- What the code reads from outside: the level of the 1-wire bus, the registers CANTEC, CANREC and
-- MCUSR, and the constants of the build.
pub record Env : Type 0 where
  pub active : Bool
  pub cantec : ℕ
  pub canrec : ℕ
  pub mcusr : ℕ
  pub git_hash : ℕ
  pub built : ℕ

-- The commands that `svc` knows, and any other byte.
pub data Command : Type 0 where
  status alloc_counts get_counts stage ow_obj ow_rom dig_in dig_out can_mob : Command
  write_ddr read_ddr write_port read_port write_pin read_pin version : Command
  bus_init bus_read bus_write bus_search bus_reply bus_data : Command
  scd41 sht11 scd41_by_hand flush alloc_counts2 get_counts2 pwm pwm_channel unknown : Command

-- `Svc::Protocol`, counted from 1; `CmdStatus` is the letter s.
abbrev pub command : ℕ → Command
command c =
    if c == 1
    then alloc_counts
    else if c == 2
    then get_counts
    else if c == 3
    then stage
    else if c == 4
    then ow_obj
    else if c == 5
    then ow_rom
    else if c == 6
    then dig_in
    else if c == 7
    then dig_out
    else if c == 8
    then can_mob
    else if c == 9
    then write_ddr
    else if c == 10
    then read_ddr
    else if c == 11
    then write_port
    else if c == 12
    then read_port
    else if c == 13
    then write_pin
    else if c == 14
    then read_pin
    else if c == 15
    then version
    else if c == 16
    then bus_init
    else if c == 17
    then bus_read
    else if c == 18
    then bus_write
    else if c == 19
    then bus_search
    else if c == 20
    then bus_reply
    else if c == 21
    then bus_data
    else if c == 22
    then scd41
    else if c == 23
    then sht11
    else if c == 24
    then scd41_by_hand
    else if c == 25
    then flush
    else if c == 26
    then alloc_counts2
    else if c == 27
    then get_counts2
    else if c == 28
    then pwm
    else if c == 29
    then pwm_channel
    else if c == 115
    then status
    else unknown

unfoldable pub prepare_status_msg : Env → Fw → Fw
unfolding reply_len push
prepare_status_msg env s =
    let r = reply_len 1 (record s { msg = set s.msg 0 115 }) in
    push (bit_or env.mcusr s.stage) (push env.canrec (push env.cantec r))

-- The last branch of the switch: the mark goes to the second byte.
unfoldable pub unknown_command : Bool → Fw → Fw
unfolding reply_len
unknown_command broadcast s =
    reply_len (if broadcast then 0 else 1) (record s { msg = set s.msg 1 cmd_invalid })

-- The switch of `svc`.
unfoldable pub execute : Command → Env → Bool → Fw → Fw
execute status env broadcast s = prepare_status_msg env s
execute alloc_counts env broadcast s = set_alloc_counts s
execute get_counts env broadcast s = get_alloc_counts s
execute stage env broadcast s = set_stage s
execute ow_obj env broadcast s = set_ow_obj_params s
execute ow_rom env broadcast s = set_ow_obj_rom_code s
execute dig_in env broadcast s = set_dig_in_params s
execute dig_out env broadcast s = set_dig_out_params s
execute can_mob env broadcast s = set_can_mob s
execute write_ddr env broadcast s = test_set set_ddr s
execute read_ddr env broadcast s = test_get get_ddr s
execute write_port env broadcast s = test_set set_port s
execute read_port env broadcast s = test_get get_port s
execute write_pin env broadcast s = test_set set_pin s
execute read_pin env broadcast s = test_get get_pin s
execute version env broadcast s = get_git_version env.git_hash env.built s
execute bus_init env broadcast s = ow_init env.active s
execute bus_read env broadcast s = ow_read_bits s
execute bus_write env broadcast s = ow_write_bits s
execute bus_search env broadcast s = ow_search s
execute bus_reply env broadcast s = ow_get_reply_code s
execute bus_data env broadcast s = ow_get_data s
execute scd41 env broadcast s = set_scd41_params s
execute sht11 env broadcast s = set_sht11_params s
execute scd41_by_hand env broadcast s = scd41_test s
execute flush env broadcast s = flush_all s
execute alloc_counts2 env broadcast s = set_alloc_counts2 s
execute get_counts2 env broadcast s = get_alloc_counts2 s
execute pwm env broadcast s = set_pwm_params s
execute pwm_channel env broadcast s = set_pwm_channel_params s
execute unknown env broadcast s = unknown_command broadcast s

-- `can_tx_svc`: the frame of object 12, once the controller has sent it.
unfoldable pub can_tx_svc : Fw → Fw
can_tx_svc s =
    if ltb 0 s.msglen && leb s.msglen 8 then record s { sent = take s.msglen s.msg ∷ s.sent } else s

unfoldable pub svc : Env → Bool → Fw → Fw
unfolding can_tx_svc execute
svc env broadcast s = can_tx_svc (execute (command (get_or s.msg 0 0)) env broadcast s)

-- `can_rx_svc` for a frame in the object `id`, with the length `dlc` of up to 15 and the bytes that
-- `CANMSG` gives. What a length above 8 overwrites after the buffer is not modelled. The result is
-- the object's number, or 0.
unfoldable pub can_rx_svc : ℕ → ℕ → List ℕ → Fw → ℕ × Fw
can_rx_svc id dlc bytes s =
    let old = get_or s.mobs id no_mob in
    let r = record s {
      msglen = dlc;
      msg = put_bytes 0 (take dlc bytes) s.msg;
      mobs = set s.mobs id (record old { cdmob = bit_or 128 16 });
    } in
    if id == 13 || id == 14 then (if ltb 0 dlc then id else 0, r) else (0, s)

-- `isSvcRx` and what `run` and `main` do with a message.
unfoldable pub serve : Env → ℕ → ℕ → List ℕ → Fw → Fw
unfolding can_rx_svc svc
serve env id dlc bytes s =
    let (got, r) = can_rx_svc id dlc bytes s in if got == 0 then r else svc env (got == 14) r
