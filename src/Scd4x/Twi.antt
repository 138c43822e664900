-- ===== src/Scd4x/Twi.antt =====
-- avr/fw/scd4x_sm.cpp: the interrupt handler of the two-wire bus and the commands that start a
-- transfer. The value that the handler writes to the control register TWCR is a constructor of
-- `Control`, for the sum of flags that it stands for.
use byt.Base.{
  set_bits, clear_bits, ℕ, ◌+◌, ◌-◌, ◌*◌, ◌/◌, ◌%◌, ◌^◌, Bool, not, ◌&&◌, List, [], ◌∷◌, ltb, ◌==◌,
  if◌then◌else◌, get_or, set, bit_and, bit_or,
}
use byt.Crc.{check_crc_word}

pub data State : Type 0 where
  idle pending_io error : State

-- TWEN; TWINT; 0; go = TWEN|TWIE|TWINT; and go with TWSTA, TWSTO, TWEA.
pub data Control : Type 0 where
  enabled disabled off go start_cond stop_cond go_ack : Control

-- `TW_STATUS`.
pub data Status : Type 0 where
  start rep_start mt_sla_ack mt_data_ack mr_sla_ack mr_data_ack mr_data_nack other : Status

pub record Twi : Type 0 where
  pub state : State
  pub buf : List ℕ  -- theData, uint8_t[9]
  pub byte_in : ℕ  -- int8_t
  pub byte_req_wr : ℕ  -- int8_t
  pub byte_req_rd : ℕ  -- int8_t
  pub twcr : Control
  pub sent : List ℕ  -- what was put into TWDR, newest first
  pub twbr : ℕ
  pub twsr : ℕ
  pub ddrd : ℕ
  pub portd : ℕ
  pub ddrg : ℕ
  pub portg : ℕ

-- `_BV(PD0) | _BV(PD1)`, the pins of the bus, and `_BV(PG4)`, the switch of the supply.
abbrev pub bus_pins : ℕ
bus_pins = 3

abbrev pub supply_pin : ℕ
supply_pin = 16

unfoldable pub enable : Twi → Twi
enable s = record s { ddrd = clear_bits s.ddrd bus_pins; twbr = 124; twsr = 0x02; twcr = enabled }

unfoldable pub disable : Twi → Twi
disable s = record s { twcr = disabled }

unfoldable pub start_io : Twi → Twi
start_io s = record s { twcr = start_cond; state = pending_io }

-- The commands of the sensor, in the order of the bytes on the wire.
abbrev pub meas_start : ℕ
meas_start = 0x21b1

abbrev pub meas_stop : ℕ
meas_stop = 0x3f86

abbrev pub get_data_ready_status : ℕ
get_data_ready_status = 0xe4b8

abbrev pub read_measurement : ℕ
read_measurement = 0xec05

unfoldable pub swap_bytes : ℕ → ℕ
swap_bytes val = bit_or (val / 256) (val * 256) % 65536

-- `theData.singleItem.val = v`, lower byte first.
unfoldable pub store_val : ℕ → List ℕ → List ℕ
store_val v d = set (set d 0 (v % 256)) 1 (v / 256)

unfoldable pub init_command : ℕ → ℕ → Twi → Twi
unfolding start_io store_val swap_bytes
init_command cmd len_rd s = start_io (record s {
  byte_req_wr = 2;
  byte_req_rd = len_rd;
  buf = store_val (swap_bytes cmd) s.buf;
  byte_in = 0;
})

unfoldable pub init_get_status : Twi → Twi
unfolding init_command
init_get_status s = init_command get_data_ready_status 3 s

unfoldable pub init_start_periodic_meas : Twi → Twi
unfolding init_command
init_start_periodic_meas s = init_command meas_start 0 s

unfoldable pub init_stop_periodic_meas : Twi → Twi
unfolding init_command
init_stop_periodic_meas s = init_command meas_stop 0 s

unfoldable pub init_read_meas : Twi → Twi
unfolding init_command
init_read_meas s = init_command read_measurement 9 s

-- The lengths are at most 6 and 9 at the callers, so the conversion to `int8_t` keeps them.
unfoldable pub init_i2c_generic_wr_rd : ℕ → ℕ → Twi → Twi
unfolding start_io
init_i2c_generic_wr_rd len_wr len_rd s =
    start_io (record s { byte_req_wr = len_wr; byte_req_rd = len_rd; byte_in = 0 })

unfoldable pub power_off : Twi → Twi
power_off s = record s {
  twcr = off;
  portd = clear_bits s.portd bus_pins;
  ddrd = set_bits s.ddrd bus_pins;
  ddrg = set_bits s.ddrg supply_pin;
  portg = set_bits s.portg supply_pin;
}

unfoldable pub power_on : Twi → Twi
power_on s = record s { portg = clear_bits s.portg supply_pin; ddrg = clear_bits s.ddrg supply_pin }

-- The items of the buffer: a single one, or the CO2 concentration, temperature and humidity.
unfoldable pub check_item : ℕ → Twi → Bool
check_item i s = check_crc_word (get_or s.buf i 0) (get_or s.buf (i + 1) 0) (get_or s.buf (i + 2) 0)

unfoldable pub check_crc_single_item : Twi → Bool
unfolding check_item
check_crc_single_item s = check_item 0 s

unfoldable pub check_crc_meas_data : Twi → Bool
unfolding check_item
check_crc_meas_data s = check_item 3 s && (check_item 6 s && check_item 0 s)

unfoldable pub item_val : ℕ → Twi → ℕ
item_val i s = get_or s.buf i 0 + 256 * get_or s.buf (i + 1) 0

unfoldable pub data_ready : Twi → Bool
unfolding item_val swap_bytes
data_ready s = not (bit_and (swap_bytes (item_val 0 s)) (2 ^ 11 - 1) == 0)

unfoldable pub get_temp : Twi → ℕ
unfolding item_val swap_bytes
get_temp s = swap_bytes (item_val 3 s)

unfoldable pub get_rh : Twi → ℕ
unfolding item_val swap_bytes
get_rh s = swap_bytes (item_val 6 s)

unfoldable pub get_co2 : Twi → ℕ
unfolding item_val swap_bytes
get_co2 s = swap_bytes (item_val 0 s)

abbrev pub sla_w : ℕ
sla_w = 0x62 * 2

abbrev pub sla_r : ℕ
sla_r = 0x62 * 2 + 1

unfoldable pub put : ℕ → Twi → Twi
put b s = record s { sent = b ∷ s.sent }

-- The slave has taken the address or a byte.
unfoldable pub on_mt_ack : Twi → Twi
unfolding put
on_mt_ack s =
    if ltb s.byte_in s.byte_req_wr
    then record (put (get_or s.buf s.byte_in 0) s) { byte_in = s.byte_in + 1; twcr = go }
    else if s.byte_req_rd == 0
    then record s { twcr = stop_cond; state = idle }
    else record s { byte_in = 0; twcr = start_cond }

-- A byte has come and was acknowledged.
unfoldable pub on_mr_data_ack : ℕ → Twi → Twi
on_mr_data_ack twdr s =
    if ltb s.byte_in s.byte_req_rd
    then record s {
      buf = set s.buf s.byte_in twdr;
      byte_in = s.byte_in + 1;
      twcr = if s.byte_in + 1 + 1 == s.byte_req_rd then go else go_ack;
    }
    else record s { byte_in = 0; twcr = stop_cond; state = error }

-- A byte has come and was not acknowledged: the last one.
unfoldable pub on_mr_data_nack : ℕ → Twi → Twi
on_mr_data_nack twdr s = record s {
  buf = set s.buf s.byte_in twdr;
  state = if s.byte_in + 1 == s.byte_req_rd then idle else error;
  byte_in = 0;
  twcr = stop_cond;
}

-- The interrupt handler; `twdr` is the byte that the bus has delivered.
unfoldable pub twi_vect : Status → ℕ → Twi → Twi
unfolding put on_mt_ack on_mr_data_ack on_mr_data_nack
twi_vect start twdr s = record (put sla_w s) { twcr = go }
twi_vect rep_start twdr s = record (put sla_r s) { twcr = go }
twi_vect mt_sla_ack twdr s = on_mt_ack s
twi_vect mt_data_ack twdr s = on_mt_ack s
twi_vect mr_sla_ack twdr s = record s { twcr = go_ack }
twi_vect mr_data_ack twdr s = on_mr_data_ack twdr s
twi_vect mr_data_nack twdr s = on_mr_data_nack twdr s
twi_vect other twdr s = record s { twcr = stop_cond; state = error }

unfoldable pub run : List (Status × ℕ) → Twi → Twi
run [] s = s
run ((st, twdr) ∷ rest) s = run rest (twi_vect st twdr s)
