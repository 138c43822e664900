-- ===== src/Svc/Safety.antt =====
-- What the service protocol of avr/fw/main.cpp does to the 1-wire master.
use byt.Base.{
  ℕ, zero, suc, ◌+◌, ◌-◌, ◌*◌, ◌/◌, ◌≤◌, ◌≡◌, inl, inr, refl, sym, subst, ◌∙◌, Bool, false, not,
  ◌||◌, List, [], ◌∷◌, take, drop, length, length-set, ltb, ◌==◌, if◌then◌else◌, get_or, set,
  Bool-cases, arith,
}
use byt.Gpio.{Gpio, set_ddr, set_port, set_pin, get_ddr, get_port, get_pin}
use byt.Meas.{put_bytes}
use byt.Ow.Bus.{Ow}
use byt.Ow.Invariant.{Inv}
use byt.Ow.Safety.{read_bits-Inv, write_bits-Inv, search-Inv, init-Inv}
use byt.Svc.State.{Fw, arg, reply_len, push, refuse, with_scd}
use byt.Svc.Config.{
  set_alloc_counts, get_alloc_counts, set_alloc_counts2, get_alloc_counts2, set_stage,
  set_ow_obj_params, set_ow_obj_rom_code, set_pwm_params, set_pwm_channel_params, set_dig_in_params,
  set_dig_out_params, set_scd41_params, set_sht11_params, set_can_mob, flush_all, enable_mobs,
  enable_mob, enable_can_pv_exchange, init_mob,
}
use byt.Svc.Ports.{push_ports, test_get, write_ports, test_set, store32, get_git_version}
use byt.Svc.Bus.{
  ow_init, ow_get_reply_code, push_data, ow_get_data, ow_read_bits, ow_write_bits, ow_search,
}
use byt.Svc.Sensor.{
  scd_enable, scd_write, scd_write_read, push_buf, scd_read, scd_diag, scd_sub, scd41_test,
}
use byt.Svc.Dispatch.{
  Env, Command, status, alloc_counts, get_counts, stage, ow_obj, ow_rom, dig_in, dig_out, can_mob,
  write_ddr, read_ddr, write_port, read_port, write_pin, read_pin, version, bus_init, bus_read,
  bus_write, bus_search, bus_reply, bus_data, scd41, sht11, scd41_by_hand, flush, alloc_counts2,
  get_counts2, pwm, pwm_channel, unknown, command, prepare_status_msg, unknown_command, execute,
  can_tx_svc, svc, can_rx_svc, serve,
}

pub length-put_bytes : (i : ℕ) (bs d : List ℕ) → length (put_bytes i bs d) ≡ length d
unfolding put_bytes
length-put_bytes i [] d = refl
length-put_bytes i (b ∷ bs) d = length-put_bytes (i + 1) bs (set d i b) ∙ length-set d i b

-- The buffer may be filled from outside.
pub put_bytes-Inv :
    (bs : List ℕ) (s : Ow) → Inv s → Inv (record s { ow_data = put_bytes 0 bs s.ow_data })
put_bytes-Inv bs s v = record {
  buffer = length-put_bytes 0 bs s.ow_data ∙ v.buffer;
  count_fits = v.count_fits;
  timer_off = v.timer_off;
  timer_on = v.timer_on;
  in_transfer = v.in_transfer;
  in_search = v.in_search;
  no_failure = v.no_failure;
  no_recovery = v.no_recovery;
}

push-ow : (v : ℕ) (s : Fw) → (push v s).ow ≡ s.ow
unfolding push
push-ow v s = refl

push_ports-ow : (get : Gpio → ℕ → ℕ) (n port : ℕ) (s : Fw) → (push_ports get n port s).ow ≡ s.ow
unfolding push_ports push
push_ports-ow get zero port s = refl
push_ports-ow get (suc n) port s = push_ports-ow get n (port + 1) (push (get s.gpio port) s)

write_ports-ow :
    (put : Gpio → ℕ → ℕ → Gpio) (n port : ℕ) (s : Fw) → (write_ports put n port s).ow ≡ s.ow
unfolding write_ports
write_ports-ow put zero port s = refl
write_ports-ow put (suc n) port s = ground (
  arith,
  write_ports-ow put n (port + 1) (record s { gpio = put s.gpio port (arg (port + 1) s) }),
)

push_data-ow : (n index size : ℕ) (s : Fw) → (push_data n index size s).ow ≡ s.ow
unfolding push_data push
push_data-ow zero index size s = refl
push_data-ow (suc n) index size s =
    ground (arith, push_data-ow n (index + 1) size (push (get_or s.ow.ow_data index 0) s))

push_buf-ow : (n i : ℕ) (s : Fw) → (push_buf n i s).ow ≡ s.ow
unfolding push_buf push
push_buf-ow zero i s = refl
push_buf-ow (suc n) i s = push_buf-ow n (i + 1) (push (get_or s.scd.twi.buf i 0) s)

enable_mobs-ow : (mode n mob : ℕ) (s : Fw) → (enable_mobs mode n mob s).ow ≡ s.ow
unfolding enable_mobs enable_mob
enable_mobs-ow mode zero mob s = refl
enable_mobs-ow mode (suc n) mob s = enable_mobs-ow mode n (mob + 1) (enable_mob mode mob s)

enable_can_pv_exchange-ow : (s : Fw) → (enable_can_pv_exchange s).ow ≡ s.ow
unfolding enable_can_pv_exchange
enable_can_pv_exchange-ow s =
    enable_mobs-ow 0 (s.mob_count - s.mob_first_tx) s.mob_first_tx
      (enable_mobs 128 s.mob_first_tx 0 s)
    ∙ enable_mobs-ow 128 s.mob_first_tx 0 s

set_stage-ow : (s : Fw) → (set_stage s).ow ≡ s.ow
unfolding set_stage refuse reply_len
set_stage-ow s = ground (arith, enable_can_pv_exchange-ow (record s { msg = set s.msg 2 s.stage }))

scd_enable-ow : (s : Fw) → (scd_enable s).ow ≡ s.ow
unfolding scd_enable with_scd refuse reply_len
scd_enable-ow s = ground arith

scd_write-ow : (s : Fw) → (scd_write s).ow ≡ s.ow
unfolding scd_write with_scd reply_len
scd_write-ow s = refl

scd_write_read-ow : (s : Fw) → (scd_write_read s).ow ≡ s.ow
unfolding scd_write_read with_scd refuse reply_len
scd_write_read-ow s = ground arith

scd_read-ow : (s : Fw) → (scd_read s).ow ≡ s.ow
unfolding scd_read refuse reply_len
scd_read-ow s = ground (
  arith,
  push_buf-ow (if ltb s.msglen 3 || arg 2 s == 0 then 7 else arg 2 s)
      (if ltb s.msglen 4 then 0 else arg 3 s) (reply_len 1 s),
)

scd_diag-ow : (s : Fw) → (scd_diag s).ow ≡ s.ow
unfolding scd_diag push reply_len
scd_diag-ow s = refl

scd41_test-ow : (s : Fw) → (scd41_test s).ow ≡ s.ow
unfolding scd41_test scd_sub with_scd refuse reply_len
scd41_test-ow s =
    ground
      (arith, scd_enable-ow s, scd_write-ow s, scd_write_read-ow s, scd_read-ow s, scd_diag-ow s)

ow_get_data-ow : (s : Fw) → (ow_get_data s).ow ≡ s.ow
unfolding ow_get_data refuse reply_len
ow_get_data-ow s = ground (
  arith,
  push_data-ow 7 (if ltb 1 s.msglen then arg 1 s else 0) ((s.ow.bits_count + 7) / 8)
      (reply_len 1 s),
)

ow_read_bits-Inv : (s : Fw) → Inv s.ow → Inv (ow_read_bits s).ow
unfolding ow_read_bits refuse reply_len
ow_read_bits-Inv s v = elim (Bool-cases (ltb s.msglen 2 || ltb 96 (arg 1 s))) [
  | inl e ↦ rw e v
  | inr e ↦ rw e (read_bits-Inv (arg 1 s) s.ow (ground arith) v)
]

ow_write_bits-Inv : (s : Fw) → s.msglen ≤ 14 → Inv s.ow → Inv (ow_write_bits s).ow
unfolding ow_write_bits refuse reply_len
ow_write_bits-Inv s h v = elim (Bool-cases (ltb 0 (s.msglen - 2))) [
  | inl e ↦ rw e (
      write_bits-Inv (8 * (s.msglen - 2)) (not (arg 1 s == 0))
        (record s.ow { ow_data = put_bytes 0 (take (s.msglen - 2) (drop 2 s.msg)) s.ow.ow_data })
        (omega arith) (put_bytes-Inv (take (s.msglen - 2) (drop 2 s.msg)) s.ow v))
  | inr e ↦ rw e v
]

ow_search-Inv : (s : Fw) → Inv s.ow → Inv (ow_search s).ow
unfolding ow_search refuse reply_len
ow_search-Inv s v = elim (Bool-cases (s.msglen == 2)) [
  | inl e ↦ rw e (search-Inv (not (arg 1 s == 0)) s.ow v)
  | inr e ↦ rw e v
]

-- A command whose handler leaves the master alone keeps its invariant.
kept : (s t : Ow) → t ≡ s → Inv s → Inv t
kept s t e v = subst (λ x. Inv x) (sym e) v

execute-Inv :
    (c : Command) (env : Env) (broadcast : Bool) (s : Fw)
    → s.msglen ≤ 14
    → Inv s.ow
    → Inv (execute c env broadcast s).ow
unfolding execute prepare_status_msg unknown_command set_alloc_counts get_alloc_counts
    set_alloc_counts2 get_alloc_counts2 set_ow_obj_params set_ow_obj_rom_code set_pwm_params
    set_pwm_channel_params set_dig_in_params set_dig_out_params set_scd41_params set_sht11_params
    set_can_mob init_mob flush_all test_get test_set get_git_version store32 ow_get_reply_code
    ow_init reply_len push refuse
execute-Inv status env broadcast s h v = v
execute-Inv alloc_counts env broadcast s h v = v
execute-Inv get_counts env broadcast s h v = v
execute-Inv stage env broadcast s h v = kept s.ow _ (set_stage-ow s) v
execute-Inv ow_obj env broadcast s h v = v
execute-Inv ow_rom env broadcast s h v = v
execute-Inv dig_in env broadcast s h v = v
execute-Inv dig_out env broadcast s h v = v
execute-Inv can_mob env broadcast s h v = v
execute-Inv write_ddr env broadcast s h v = kept s.ow _ (write_ports-ow set_ddr 7 0 s) v
execute-Inv read_ddr env broadcast s h v = kept s.ow _ (push_ports-ow get_ddr 7 0 (reply_len 1 s)) v
execute-Inv write_port env broadcast s h v = kept s.ow _ (write_ports-ow set_port 7 0 s) v
execute-Inv read_port env broadcast s h v =
    kept s.ow _ (push_ports-ow get_port 7 0 (reply_len 1 s)) v
execute-Inv write_pin env broadcast s h v = kept s.ow _ (write_ports-ow set_pin 7 0 s) v
execute-Inv read_pin env broadcast s h v = kept s.ow _ (push_ports-ow get_pin 7 0 (reply_len 1 s)) v
execute-Inv version env broadcast s h v = v
execute-Inv bus_init env broadcast s h v = init-Inv env.active s.ow v
execute-Inv bus_read env broadcast s h v = ow_read_bits-Inv s v
execute-Inv bus_write env broadcast s h v = ow_write_bits-Inv s h v
execute-Inv bus_search env broadcast s h v = ow_search-Inv s v
execute-Inv bus_reply env broadcast s h v = v
execute-Inv bus_data env broadcast s h v = kept s.ow _ (ow_get_data-ow s) v
execute-Inv scd41 env broadcast s h v = v
execute-Inv sht11 env broadcast s h v = v
execute-Inv scd41_by_hand env broadcast s h v = kept s.ow _ (scd41_test-ow s) v
execute-Inv flush env broadcast s h v = v
execute-Inv alloc_counts2 env broadcast s h v = v
execute-Inv get_counts2 env broadcast s h v = v
execute-Inv pwm env broadcast s h v = v
execute-Inv pwm_channel env broadcast s h v = v
execute-Inv unknown env broadcast s h v = v

svc-Inv :
    (env : Env) (broadcast : Bool) (s : Fw)
    → s.msglen ≤ 14
    → Inv s.ow
    → Inv (svc env broadcast s).ow
unfolding svc can_tx_svc
svc-Inv env broadcast s h v =
    kept (execute (command (get_or s.msg 0 0)) env broadcast s).ow _ (ground arith)
      (execute-Inv (command (get_or s.msg 0 0)) env broadcast s h v)

can_rx_svc-ow : (id dlc : ℕ) (bytes : List ℕ) (s : Fw) → (can_rx_svc id dlc bytes s).1.ow ≡ s.ow
unfolding can_rx_svc
can_rx_svc-ow id dlc bytes s = ground arith

can_rx_svc-msglen :
    (id dlc : ℕ) (bytes : List ℕ) (s : Fw)
    → ((can_rx_svc id dlc bytes s).0 == 0) ≡ false
    → (can_rx_svc id dlc bytes s).1.msglen ≡ dlc
unfolding can_rx_svc
can_rx_svc-msglen id dlc bytes s h = ground arith

-- A service message of any content, with a length code of up to 14, keeps the invariant of the 1-wire
-- master. (Fifteen would ask for 104 bits.)
pub serve-Inv :
    (env : Env) (id dlc : ℕ) (bytes : List ℕ) (s : Fw)
    → dlc ≤ 14
    → Inv s.ow
    → Inv (serve env id dlc bytes s).ow
unfolding serve
serve-Inv env id dlc bytes s h v =
    let r = (can_rx_svc id dlc bytes s).1 in
    let u : Inv r.ow = kept s.ow r.ow (can_rx_svc-ow id dlc bytes s) v in
    elim (Bool-cases ((can_rx_svc id dlc bytes s).0 == 0)) [
      | inl e ↦ rw e u
      | inr e ↦ rw e (
          svc-Inv env ((can_rx_svc id dlc bytes s).0 == 14) r
            (omega (arith, can_rx_svc-msglen id dlc bytes s e)) u)
    ]
