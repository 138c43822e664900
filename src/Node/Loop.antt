-- ===== src/Node/Loop.antt =====
-- `run` and `onTimer4ms096` of avr/fw/main.cpp. The components that the parts of the firmware share
-- (the process image, the 1-wire master, the tables of objects) stand in `fw`, and each part gets
-- them when it is called and gives them back.
use byt.Base.{
  ℕ, ◌-◌, Bool, ◌||◌, Option, none, some, List, ◌++◌, ltb, ◌==◌, if◌then◌else◌, get_or, set, bit_or,
  bit_and,
}
use byt.Ow.Ops.{ow_sm_do}
use byt.Meas.{Meas, measure_ow_temp_sm}
use byt.Scd4x.Cycle.{do_sm_l2, start_periodic_meas}
use byt.Sht11.Cycle.{Sht11, do_sm, enable_l2}
use byt.Io.Debounce.{sample_all, iterate_output_objs}
use byt.Io.Mobs.{Frame, receive, transmit}
use byt.Pwm.{iterate_pwm_objs}
use byt.Svc.State.{Fw, with_scd}
use byt.Svc.Config.{no_mob, mob_size}
use byt.Svc.Dispatch.{Env, serve}

pub record Node : Type 0 where
  pub fw : Fw
  pub meas : Meas
  pub sht : Sht11
  pub sent_pv : List Frame  -- the frames of the process image that were sent, oldest first

-- What a part of the firmware reads in a call: the coarse clock, the bus at the beginning of a reset,
-- and the data wire of the humidity sensor.
pub record Sense : Type 0 where
  pub now : ℕ
  pub active : Bool
  pub line : Bool

unfoldable pub measure : Sense → Node → Node
measure i n =
    let seen = record n.meas {
      ow_t_count = n.fw.ow_t_count;
      ow_t_obj = n.fw.ow_t_obj;
      temp_sensors = n.fw.ow_temp_sensors;
      ow = n.fw.ow;
      pv = n.fw.pv;
    } in
    let m = measure_ow_temp_sm i.now i.active seen in
    record n { meas = m; fw = record n.fw { ow = m.ow; pv = m.pv } }

unfoldable pub humidity : Sense → Node → Node
humidity i n =
    let seen = record n.sht {
      mob_idx = n.fw.sht_mob_idx;
      iodata_idx = n.fw.sht_iodata_idx;
      pv = n.fw.pv;
    } in
    let t = do_sm i.now i.line seen in record n { sht = t; fw = record n.fw { pv = t.pv } }

unfoldable pub co2 : Sense → Node → Node
co2 i n = record n { fw = with_scd (do_sm_l2 i.now) n.fw }

unfoldable pub sample_inputs : Node → Node
sample_inputs n =
    let (objs, p) = sample_all n.fw.gpio n.fw.dig_in_obj n.fw.pv in
    record n { fw = record n.fw { dig_in_obj = objs; pv = p } }

unfoldable pub on_timer : Sense → Node → Node
unfolding measure humidity co2 sample_inputs
on_timer i n = sample_inputs (co2 i (humidity i (measure i n)))

-- A frame that waits in a message object: its number, length code and bytes.
pub record Arrived : Type 0 where
  pub mob : ℕ
  pub dlc : ℕ
  pub bytes : List ℕ

unfoldable pub is_svc_rx : ℕ → Bool
is_svc_rx mob = mob == 13 || mob == 14

-- The branch for a frame of the process image: the object is armed again.
unfoldable pub receive_pv : Arrived → Fw → Fw
receive_pv a s =
    let p = receive s.mob_end_idx a.mob a.dlc a.bytes s.pv in
    let old = get_or s.mobs a.mob no_mob in
    record s {
      pv = p;
      mobs = set s.mobs a.mob (record old { cdmob = bit_or 128 (mob_size a.mob s) });
      gpio = iterate_output_objs a.mob s.dig_out_obj p s.gpio;
      timer3 = iterate_pwm_objs a.mob s.pwm_obj p s.timer3;
    }

-- A service message is taken out of its object by `can_rx_svc`, which clears RXOK, so that the branch
-- for the process image does not see it.
unfoldable pub on_can : Env → Option Arrived → Fw → Fw
on_can env none s = s
on_can env (some a) s =
    if is_svc_rx a.mob
    then serve env a.mob a.dlc a.bytes s
    else if ltb a.mob s.mob_first_tx
    then receive_pv a s
    else s

-- The sending loop; `busy` is what CANEN shows.
unfoldable pub send_marked : (ℕ → Bool) → Node → Node
send_marked busy n =
    let s = n.fw in
    let (frames, p) =
      transmit s.mob_end_idx busy (s.mob_count - s.mob_first_tx) s.mob_first_tx s.pv in
    record n { fw = record s { pv = p }; sent_pv = n.sent_pv ++ frames }

-- One round of the loop of `run`: a frame or none, and the 4 ms timer stepped or not.
unfoldable pub round : Env → Option Arrived → (ℕ → Bool) → Bool → Sense → Node → Node
unfolding on_can send_marked on_timer
round env arrived busy ticked i n =
    let m = send_marked busy (record n { fw = on_can env arrived n.fw }) in
    if ticked then on_timer i m else m

-- What `run` does before its loop.
unfoldable pub start_sensors : Node → Node
start_sensors n =
    let humid = if bit_and n.fw.features 2 == 0 then n.sht else enable_l2 n.sht in
    let f = if bit_and n.fw.features 1 == 0 then n.fw else with_scd start_periodic_meas n.fw in
    record n { sht = humid; fw = f }

-- The timer interrupt of the 1-wire master.
unfoldable pub on_interrupt : Bool → Node → Node
on_interrupt active n = record n { fw = record n.fw { ow = ow_sm_do active n.fw.ow } }
