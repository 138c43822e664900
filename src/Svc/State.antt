-- ===== src/Svc/State.antt =====
-- The state of the firmware that the service protocol of avr/fw/main.cpp reads and writes: the
-- message, the configuration, the objects, the registers of the CAN controller, and the state of the
-- other components. The process image is one, and the components that use it get it when called.
use byt.Base.{ℕ, ◌+◌, ◌*◌, ◌%◌, List, get_or, set}
use byt.Gpio.{Gpio}
use byt.Pv.{Pv}
use byt.Ow.Bus.{Ow}
use byt.Meas.{OwT}
use byt.Scd4x.Cycle.{Scd}
use byt.Io.Debounce.{DigIn, DigOut}
use byt.Pwm.{Timer3, PwmOut}

-- The registers of one message object: CANIDM, CANIDT and CANCDMOB.
pub record Mob : Type 0 where
  pub idm : ℕ
  pub idt : ℕ
  pub cdmob : ℕ

pub record Fw : Type 0 where
  pub stage : ℕ  -- gFwStage
  pub msg : List ℕ  -- svc_msg, uint8_t[8]
  pub msglen : ℕ  -- svc_msglen
  pub sent : List (List ℕ)  -- the data of the frames sent by can_tx_svc, newest first
  pub dig_in_count : ℕ
  pub dig_out_count : ℕ
  pub ow_t_count : ℕ
  pub io_data_count : ℕ
  pub mob_first_tx : ℕ
  pub mob_count : ℕ
  pub features : ℕ
  pub pwm_count : ℕ
  pub dig_in_obj : List DigIn
  pub dig_out_obj : List DigOut
  pub ow_t_obj : List OwT
  pub ow_temp_sensors : List (List ℕ)  -- RomData, 8 bytes each
  pub pwm_obj : List PwmOut
  pub sht_mob_idx : ℕ
  pub sht_iodata_idx : ℕ
  pub mob_end_idx : List ℕ
  pub mobs : List Mob
  pub canie : ℕ  -- uint16_t
  pub gpio : Gpio
  pub timer3 : Timer3
  pub ow : Ow
  pub scd : Scd  -- with the object's indices; its `pv` is set when it is called
  pub pv : Pv

-- `svc_msg[k]`.
unfoldable pub arg : ℕ → Fw → ℕ
arg k s = get_or s.msg k 0

-- `svc_msglen = n`.
unfoldable pub reply_len : ℕ → Fw → Fw
reply_len n s = record s { msglen = n }

-- `svc_msg[svc_msglen++] = v`.
unfoldable pub push : ℕ → Fw → Fw
push v s = record s { msg = set s.msg s.msglen v; msglen = (s.msglen + 1) % 256 }

abbrev pub cmd_invalid : ℕ
cmd_invalid = 88

-- `svc_msg[0] = Svc::Protocol::CmdInvalid`.
unfoldable pub refuse : Fw → Fw
refuse s = record s { msg = set s.msg 0 cmd_invalid }

-- A call of the CO2 sensor's cycle, on the one process image.
unfoldable pub with_scd : (Scd → Scd) → Fw → Fw
with_scd f s = let t = f (record s.scd { pv = s.pv }) in record s { scd = t; pv = t.pv }

-- A 16-bit value and a 32-bit one in a message, lower byte first.
unfoldable pub arg16 : ℕ → Fw → ℕ
unfolding arg
arg16 k s = arg k s + 256 * arg (k + 1) s
