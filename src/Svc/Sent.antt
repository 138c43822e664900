-- ===== src/Svc/Sent.antt =====
-- The frames that the commands of `svc` of avr/fw/main.cpp send: none.
use byt.Base.{
  ℕ, zero, suc, ◌+◌, ◌-◌, ◌/◌, ◌≡◌, refl, ◌∙◌, Bool, true, false, not, ◌&&◌, ◌||◌, ltb, ◌==◌,
  if◌then◌else◌, get_or, set, arith,
}
use byt.Gpio.{Gpio, set_ddr, set_port, set_pin, get_ddr, get_port, get_pin}
use byt.Svc.State.{Fw, arg, reply_len, push, refuse, with_scd}
use byt.Svc.Config.{
  set_alloc_counts, get_alloc_counts, set_alloc_counts2, get_alloc_counts2, set_stage,
  set_ow_obj_params, set_ow_obj_rom_code, set_pwm_params, set_pwm_channel_params, set_dig_in_params,
  set_dig_out_params, set_scd41_params, set_sht11_params, set_can_mob, flush_all, enable_mobs,
  enable_mob, enable_can_pv_exchange, init_mob, is_stage, stage_running,
}
use byt.Svc.Ports.{push_ports, test_get, write_ports, test_set, store32, get_git_version}
use byt.Svc.Bus.{
  ow_init, ow_get_reply_code, push_data, ow_get_data, ow_read_bits, ow_write_bits, ow_search,
}
use byt.Svc.Sensor.{
  scd_enable, scd_write, scd_write_read, push_buf, scd_read, scd_diag, scd_sub, scd41_test,
}
use byt.Svc.Dispatch.{
  Env, Command, status, alloc_counts, get_counts, stage, ow_obj, ow_rom, dig_in, dig_out, can_mob,
  write_ddr, read_ddr, write_port, read_port, write_pin, read_pin, version, bus_init, bus_read,
  bus_write, bus_search, bus_reply, bus_data, scd41, sht11, scd41_by_hand, flush, alloc_counts2,
  get_counts2, pwm, pwm_channel, unknown, prepare_status_msg, unknown_command, execute,
}

-- No command sends a frame by itself: `can_tx_svc` does.
abbrev pub Keeps : Fw → Fw → Type 0
Keeps s t = t.sent ≡ s.sent

both : (s : Fw) (b : Bool) (t u : Fw) → Keeps s t → Keeps s u → Keeps s (if b then t else u)
both s true t u p q = p
both s false t u p q = q

push_ports-sent : (get : Gpio → ℕ → ℕ) (n port : ℕ) (s : Fw) → Keeps s (push_ports get n port s)
unfolding push_ports push
push_ports-sent get zero port s = refl
push_ports-sent get (suc n) port s = push_ports-sent get n (port + 1) (push (get s.gpio port) s)

write_ports-sent :
    (put : Gpio → ℕ → ℕ → Gpio) (n port : ℕ) (s : Fw) → Keeps s (write_ports put n port s)
unfolding write_ports
write_ports-sent put zero port s = refl
write_ports-sent put (suc n) port s =
    let t = record s { gpio = put s.gpio port (arg (port + 1) s) } in
    both s (ltb (port + 1) s.msglen) (write_ports put n (port + 1) t) s
      (write_ports-sent put n (port + 1) t) refl

push_data-sent : (n index size : ℕ) (s : Fw) → Keeps s (push_data n index size s)
unfolding push_data push
push_data-sent zero index size s = refl
push_data-sent (suc n) index size s =
    let t = push (get_or s.ow.ow_data index 0) s in
    both s (ltb index size) (push_data n (index + 1) size t) s (push_data-sent n (index + 1) size t)
      refl

push_buf-sent : (n i : ℕ) (s : Fw) → Keeps s (push_buf n i s)
unfolding push_buf push
push_buf-sent zero i s = refl
push_buf-sent (suc n) i s = push_buf-sent n (i + 1) (push (get_or s.scd.twi.buf i 0) s)

enable_mobs-sent : (mode n mob : ℕ) (s : Fw) → Keeps s (enable_mobs mode n mob s)
unfolding enable_mobs enable_mob
enable_mobs-sent mode zero mob s = refl
enable_mobs-sent mode (suc n) mob s = enable_mobs-sent mode n (mob + 1) (enable_mob mode mob s)

enable_can_pv_exchange-sent : (s : Fw) → Keeps s (enable_can_pv_exchange s)
unfolding enable_can_pv_exchange
enable_can_pv_exchange-sent s =
    enable_mobs-sent 0 (s.mob_count - s.mob_first_tx) s.mob_first_tx
      (enable_mobs 128 s.mob_first_tx 0 s)
    ∙ enable_mobs-sent 128 s.mob_first_tx 0 s

set_stage-sent : (s : Fw) → Keeps s (set_stage s)
unfolding set_stage refuse reply_len
set_stage-sent s =
    let answered = record s { msg = set s.msg 2 s.stage } in
    both s (is_stage (arg 1 s)) _ (reply_len 1 (refuse s))
      (both s (not (arg 1 s == s.stage) && arg 1 s == stage_running)
        (enable_can_pv_exchange answered) answered (enable_can_pv_exchange-sent answered) refl)
      refl

ow_get_data-sent : (s : Fw) → Keeps s (ow_get_data s)
unfolding ow_get_data refuse reply_len
ow_get_data-sent s =
    let index = if ltb 1 s.msglen then arg 1 s else 0 in
    let size = (s.ow.bits_count + 7) / 8 in
    both s (ltb size index) (refuse (reply_len 1 s)) (push_data 7 index size (reply_len 1 s)) refl
      (push_data-sent 7 index size (reply_len 1 s))

ow_read_bits-sent : (s : Fw) → Keeps s (ow_read_bits s)
unfolding ow_read_bits refuse reply_len
ow_read_bits-sent s = both s (ltb s.msglen 2 || ltb 96 (arg 1 s)) (refuse s) _ refl refl

scd_read-sent : (s : Fw) → Keeps s (scd_read s)
unfolding scd_read refuse reply_len
scd_read-sent s =
    let len = if ltb s.msglen 3 || arg 2 s == 0 then 7 else arg 2 s in
    let offset = if ltb s.msglen 4 then 0 else arg 3 s in
    both s _ (refuse (reply_len 1 s)) (push_buf len offset (reply_len 1 s)) refl
      (push_buf-sent len offset (reply_len 1 s))

ow_write_bits-sent : (s : Fw) → Keeps s (ow_write_bits s)
unfolding ow_write_bits refuse reply_len
ow_write_bits-sent s = both s (ltb 0 (s.msglen - 2)) _ (refuse (reply_len 1 s)) refl refl

ow_search-sent : (s : Fw) → Keeps s (ow_search s)
unfolding ow_search refuse reply_len
ow_search-sent s = both s (s.msglen == 2) _ (refuse s) refl refl

scd_enable-sent : (s : Fw) → Keeps s (scd_enable s)
unfolding scd_enable with_scd refuse reply_len
scd_enable-sent s = ground arith

scd_write-sent : (s : Fw) → Keeps s (scd_write s)
unfolding scd_write with_scd reply_len
scd_write-sent s = refl

scd_write_read-sent : (s : Fw) → Keeps s (scd_write_read s)
unfolding scd_write_read with_scd refuse reply_len
scd_write_read-sent s = ground arith

scd_diag-sent : (s : Fw) → Keeps s (scd_diag s)
unfolding scd_diag push reply_len
scd_diag-sent s = refl

scd41_test-sent : (s : Fw) → Keeps s (scd41_test s)
unfolding scd41_test scd_sub with_scd refuse reply_len
scd41_test-sent s = ground (
  arith,
  scd_enable-sent s,
  scd_write-sent s,
  scd_write_read-sent s,
  scd_read-sent s,
  scd_diag-sent s,
)

pub execute-sent :
    (k : Command) (env : Env) (broadcast : Bool) (s : Fw) → Keeps s (execute k env broadcast s)
unfolding execute prepare_status_msg unknown_command set_alloc_counts get_alloc_counts
    set_alloc_counts2 get_alloc_counts2 set_ow_obj_params set_ow_obj_rom_code set_pwm_params
    set_pwm_channel_params set_dig_in_params set_dig_out_params set_scd41_params set_sht11_params
    set_can_mob init_mob flush_all test_get test_set get_git_version store32 ow_get_reply_code
    ow_init reply_len push refuse
execute-sent status env broadcast s = refl
execute-sent alloc_counts env broadcast s = refl
execute-sent get_counts env broadcast s = refl
execute-sent stage env broadcast s = set_stage-sent s
execute-sent ow_obj env broadcast s = refl
execute-sent ow_rom env broadcast s = refl
execute-sent dig_in env broadcast s = refl
execute-sent dig_out env broadcast s = refl
execute-sent can_mob env broadcast s = refl
execute-sent write_ddr env broadcast s = write_ports-sent set_ddr 7 0 s
execute-sent read_ddr env broadcast s = push_ports-sent get_ddr 7 0 (reply_len 1 s)
execute-sent write_port env broadcast s = write_ports-sent set_port 7 0 s
execute-sent read_port env broadcast s = push_ports-sent get_port 7 0 (reply_len 1 s)
execute-sent write_pin env broadcast s = write_ports-sent set_pin 7 0 s
execute-sent read_pin env broadcast s = push_ports-sent get_pin 7 0 (reply_len 1 s)
execute-sent version env broadcast s = refl
execute-sent bus_init env broadcast s = refl
execute-sent bus_read env broadcast s = ow_read_bits-sent s
execute-sent bus_write env broadcast s = ow_write_bits-sent s
execute-sent bus_search env broadcast s = ow_search-sent s
execute-sent bus_reply env broadcast s = refl
execute-sent bus_data env broadcast s = ow_get_data-sent s
execute-sent scd41 env broadcast s = refl
execute-sent sht11 env broadcast s = refl
execute-sent scd41_by_hand env broadcast s = scd41_test-sent s
execute-sent flush env broadcast s = refl
execute-sent alloc_counts2 env broadcast s = refl
execute-sent get_counts2 env broadcast s = refl
execute-sent pwm env broadcast s = refl
execute-sent pwm_channel env broadcast s = refl
execute-sent unknown env broadcast s = refl
