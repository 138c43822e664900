-- ===== src/Svc/Config.antt =====
-- The commands of `svc` (avr/fw/main.cpp) that configure the node: counts, stage, objects and message
-- objects. An object past the end of its table is not written here; the source checks no index.
use byt.Base.{
  ℕ, zero, suc, ◌+◌, ◌-◌, ◌*◌, ◌%◌, ◌^◌, Bool, true, not, ◌&&◌, ◌||◌, List, [], ◌∷◌, ◌++◌, take,
  drop, ◌==◌, if◌then◌else◌, get_or, set, bit_or,
}
use byt.Crc.{crc_from}
use byt.Gpio.{set_dig_out, set_dir_out}
use byt.Pv.{Pv, write_u16, mark_mob_tx}
use byt.Meas.{OwT}
use byt.Meas
use byt.Scd4x.Cycle.{Scd}
use byt.Scd4x.Cycle
use byt.Io.Debounce.{DigIn, DigOut}
use byt.Io.Mobs.{begin_idx, end_idx}
use byt.Pwm.{Channel, pe3_oc3a, pe4_oc3b, pe5_oc3c, none_of_them, Timer3, PwmOut, enable_out}
use byt.Pwm
use byt.Svc.State.{Mob, Fw, arg, arg16, reply_len, push, refuse}

abbrev pub stage_init1 : ℕ
stage_init1 = 64

abbrev pub stage_init2 : ℕ
stage_init2 = 128

abbrev pub stage_running : ℕ
stage_running = 192

unfoldable pub set_alloc_counts : Fw → Fw
unfolding reply_len arg
set_alloc_counts s = reply_len 1 (record s {
  dig_in_count = arg 1 s;
  dig_out_count = arg 2 s;
  ow_t_count = arg 3 s;
  io_data_count = arg 4 s;
  mob_first_tx = arg 5 s;
  mob_count = arg 6 s;
  features = arg 7 s;
})

unfoldable pub get_alloc_counts : Fw → Fw
unfolding reply_len push
get_alloc_counts s =
    let r = push s.dig_in_count (reply_len 1 s) in
    let r = push s.ow_t_count (push s.dig_out_count r) in
    let r = push s.mob_first_tx (push s.io_data_count r) in push s.features (push s.mob_count r)

unfoldable pub set_alloc_counts2 : Fw → Fw
unfolding reply_len arg
set_alloc_counts2 s = reply_len 1 (record s { pwm_count = arg 1 s })

unfoldable pub get_alloc_counts2 : Fw → Fw
unfolding reply_len push
get_alloc_counts2 s = push s.pwm_count (reply_len 1 s)

-- The size of a message object's part of the image, as a `uint8_t`.
unfoldable pub mob_size : ℕ → Fw → ℕ
mob_size mob s = (end_idx s.mob_end_idx mob + 256 - begin_idx s.mob_end_idx mob) % 256

abbrev pub no_mob : Mob
no_mob = record { idm = 0; idt = 0; cdmob = 0 }

-- One round of the loops of `enableCanPvExchange`, the bits of the mode being given.
unfoldable pub enable_mob : ℕ → ℕ → Fw → Fw
unfolding mob_size
enable_mob mode mob s = record s {
  mobs =
      set s.mobs mob (record (get_or s.mobs mob no_mob) { cdmob = bit_or mode (mob_size mob s) });
  canie = bit_or s.canie (2 ^ mob);
}

unfoldable pub enable_mobs : ℕ → ℕ → ℕ → Fw → Fw
unfolding enable_mob
enable_mobs mode zero mob s = s
enable_mobs mode (suc n) mob s = enable_mobs mode n (mob + 1) (enable_mob mode mob s)

-- `enableCanPvExchange`: CONMOB1 is bit 7.
unfoldable pub enable_can_pv_exchange : Fw → Fw
unfolding enable_mobs
enable_can_pv_exchange s =
    enable_mobs 0 (s.mob_count - s.mob_first_tx) s.mob_first_tx (enable_mobs 128 s.mob_first_tx 0 s)

unfoldable pub is_stage : ℕ → Bool
is_stage v = v == 0 || (v == stage_init1 || (v == stage_init2 || v == stage_running))

unfoldable pub set_stage : Fw → Fw
unfolding arg is_stage refuse reply_len enable_can_pv_exchange
set_stage s =
    let new_stage = arg 1 s in
    let answered = record s { msg = set s.msg 2 s.stage } in
    let starts = not (new_stage == s.stage) && new_stage == stage_running in
    let ready = if starts then enable_can_pv_exchange answered else answered in
    if is_stage new_stage
    then record ready { stage = new_stage; msglen = 3 }
    else reply_len 1 (refuse s)

unfoldable pub set_ow_obj_params : Fw → Fw
unfolding arg reply_len
set_ow_obj_params s =
    let obj : OwT = record { mob_idx = arg 2 s; iodata_idx = arg 3 s } in
    reply_len 1 (record s {
      ow_t_obj = set s.ow_t_obj (arg 1 s) obj;
      pv = record s.pv { io_data = write_u16 s.pv.io_data obj.iodata_idx Meas.invalid_value };
    })

-- The family 0x28, the serial number of the message, and the checksum of these.
unfoldable pub rom_data : Fw → List ℕ
rom_data s = let code = 0x28 ∷ take 6 (drop 2 s.msg) in code ++ crc_from 0 code ∷ []

unfoldable pub set_ow_obj_rom_code : Fw → Fw
unfolding arg reply_len rom_data
set_ow_obj_rom_code s =
    let code = 0x28 ∷ take 6 (drop 2 s.msg) in
    reply_len 2 (record s {
      ow_temp_sensors = set s.ow_temp_sensors (arg 1 s) (rom_data s);
      msg = set s.msg 1 (crc_from 0 code);
    })

unfoldable pub set_pwm_params : Fw → Fw
unfolding arg arg16 reply_len
set_pwm_params s = reply_len 1 (record s { timer3 = Pwm.init (arg 1 s) (arg16 2 s) s.timer3 })

-- `(Pwm16At90::Channel)v`.
unfoldable pub channel : ℕ → Channel
channel v =
    if v == 0
    then pe3_oc3a
    else if v == 1
    then pe4_oc3b
    else if v == 2
    then pe5_oc3c
    else none_of_them

unfoldable pub set_pwm_channel_params : Fw → Fw
unfolding arg channel reply_len
set_pwm_channel_params s =
    let obj : PwmOut = record { mob_idx = arg 2 s; iodata_idx = arg 3 s; ch = channel (arg 4 s) } in
    reply_len 1
      (record s { pwm_obj = set s.pwm_obj (arg 1 s) obj; timer3 = enable_out obj.ch s.timer3 })

abbrev pub no_input : DigIn
no_input = record { mob_idx = 0; iodata_idx = 0; mask = 0; pin = 0; debounce = 0; consecutive = 0 }

-- `DigIN_Obj::setParams`: the count of agreeing samples is left as it is.
unfoldable pub set_dig_in_params : Fw → Fw
unfolding arg reply_len
set_dig_in_params s =
    let old = get_or s.dig_in_obj (arg 1 s) no_input in
    let obj = record old {
      mob_idx = arg 2 s;
      iodata_idx = arg 3 s;
      mask = arg 4 s;
      pin = arg 5 s;
      debounce = arg 6 s;
    } in
    reply_len 1 (record s {
      dig_in_obj = set s.dig_in_obj (arg 1 s) obj;
      gpio = set_dig_out s.gpio (arg 5 s) true;
    })

-- `DigOUT_Obj::setParams`.
unfoldable pub set_dig_out_params : Fw → Fw
unfolding arg reply_len
set_dig_out_params s =
    let obj : DigOut = record {
      mob_idx = arg 2 s;
      iodata_idx = arg 3 s;
      mask = arg 4 s;
      pin = arg 5 s;
    } in
    reply_len 1 (record s {
      dig_out_obj = set s.dig_out_obj (arg 1 s) obj;
      gpio = set_dir_out s.gpio (arg 5 s);
    })

unfoldable pub set_scd41_params : Fw → Fw
unfolding arg reply_len
set_scd41_params s =
    let i = arg 2 s in
    let d = write_u16 s.pv.io_data (i + 4) Cycle.invalid_value in
    let d = write_u16 d (i + 2) Cycle.invalid_value in
    reply_len 1 (record s {
      scd = record s.scd { mob_idx = arg 1 s; iodata_idx = i };
      pv = record s.pv { io_data = write_u16 d i Cycle.invalid_value };
    })

unfoldable pub set_sht11_params : Fw → Fw
unfolding arg reply_len
set_sht11_params s =
    let i = arg 2 s in
    let d = write_u16 s.pv.io_data (i + 2) Cycle.invalid_value in
    reply_len 1 (record s {
      sht_mob_idx = arg 1 s;
      sht_iodata_idx = i;
      pv = record s.pv { io_data = write_u16 d i Cycle.invalid_value };
    })

-- `initMob`.
unfoldable pub init_mob : ℕ → ℕ → ℕ → Fw → Fw
init_mob mob end_ canid s =
    let old = get_or s.mobs mob no_mob in
    record s {
      mobs = set s.mobs mob (record old { idm = 0xFFE00005; idt = canid * 2 ^ 21 % 2 ^ 32 });
      mob_end_idx = set s.mob_end_idx mob end_;
    }

unfoldable pub set_can_mob : Fw → Fw
unfolding arg arg16 reply_len init_mob
set_can_mob s = reply_len 1 (init_mob (arg 1 s) (arg 2 s) (arg16 3 s) s)

-- `n` rounds of the loop of `CmdFlushAll` from the object `mob` on.
unfoldable pub mark_mobs : ℕ → ℕ → Pv → Pv
mark_mobs zero mob p = p
mark_mobs (suc n) mob p = mark_mobs n (mob + 1) (mark_mob_tx mob p)

unfoldable pub flush_all : Fw → Fw
unfolding mark_mobs
flush_all s = record s { pv = mark_mobs (s.mob_count - s.mob_first_tx) s.mob_first_tx s.pv }
