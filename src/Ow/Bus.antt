-- ===== src/Ow/Bus.antt =====
-- The state of the 1-wire master of avr/fw/ow_sm.cpp, its bus pin PA0 and its timer.
use byt.Base.{
  ℕ, ◌+◌, ◌-◌, ◌*◌, ◌/◌, ◌%◌, ◌^◌, Bool, true, false, List, ◌∷◌, ltb, if◌then◌else◌, get_or, set,
  set_bits, clear_bits, has_bits,
}

-- `OwResponseCode`, from which avr/fw/OwResponseCode_generated.h is generated.
pub data Response : Type 0 where
  busy rsp_error presence_ok bus_failure0 bus_failure1 no_presence bus_failure3 : Response
  read_bits_ok read_bits_failure write_bits_ok write_bits_failure : Response
  search_result0 search_result1 search_result11 search_result00 : Response

pub data OwState : Type 0 where
  idle init_wait_reset_pulse_finished init_wait_presence init_wait_presence_cleared : OwState
  init_wait_recovery reading_bits writing_bits searching : OwState

pub data BitIoState : Type 0 where
  finished_ok finished_error wait_sample_event wait_slot_end : BitIoState

pub data StrongPower : Type 0 where
  power0 power_req keep_after_write : StrongPower

-- What the code does to the line and to the timer, as an observer at the pin sees it.
pub data Act : Type 0 where
  pull release power timer_off : Act
  wait : ℕ → Act

pub record Ow : Type 0 where
  pub state : OwState
  pub strong_power_request : StrongPower
  pub bit_io_state : BitIoState
  pub bitidx : ℕ  -- uint8_t
  pub response_code : Response
  pub bits_count : ℕ  -- int, set from a uint8_t
  pub ow_data : List ℕ  -- uint8_t[12]
  pub porta : Bool  -- bit PA0 of PORTA
  pub ddra : Bool  -- bit PA0 of DDRA
  pub tcnt0 : ℕ
  pub tccr0a : ℕ
  pub tifr0 : ℕ
  pub timsk0 : ℕ
  pub trace : List Act  -- newest first

unfoldable pub emit : Act → Ow → Ow
emit a s = record s { trace = a ∷ s.trace }

unfoldable pub bus_pull : Ow → Ow
unfolding emit
bus_pull s = emit pull (record s { porta = false; ddra = true })

unfoldable pub bus_release : Ow → Ow
unfolding emit
bus_release s = emit release (record s { ddra = false })

unfoldable pub bus_power_strong : Ow → Ow
unfolding emit
bus_power_strong s = emit power (record s { porta = true; ddra = true })

unfoldable pub response : Response → Ow → Ow
response code s = record s { response_code = code }

unfoldable pub clockdiv : ℕ → ℕ
clockdiv us =
    if ltb (us * 8) 255 then 1 else if ltb us 255 then 2 else if ltb (us / 8) 255 then 3 else 0

-- The value that the 8-bit counter starts from, so that it overflows in time.
unfoldable pub ticks : ℕ → ℕ
ticks us =
    let v =
      if ltb (us * 8) 255
      then us * 8
      else if ltb us 255
      then us
      else if ltb (us / 8) 255
      then us / 8
      else 0 in
    (255 - v + 1) % 256

-- `SCHEDULE_TIMEOUT`.
unfoldable pub schedule_timeout : ℕ → Ow → Ow
unfolding emit clockdiv ticks
schedule_timeout us s = emit (wait us) (record s { tcnt0 = ticks us; tccr0a = clockdiv us })

abbrev pub dur_reset_pulse : ℕ
dur_reset_pulse = 489

abbrev pub dur_wait_presence : ℕ
dur_wait_presence = 90

abbrev pub dur_wait_presence_cleared : ℕ
dur_wait_presence_cleared = dur_reset_pulse - dur_wait_presence

abbrev pub dur_read_sample : ℕ
dur_read_sample = 5

abbrev pub dur_slot : ℕ
dur_slot = 60

abbrev pub dur_write0_pulse : ℕ
dur_write0_pulse = 60

abbrev pub dur_write0_relax : ℕ
dur_write0_relax = 80 - dur_write0_pulse

abbrev pub dur_write1_relax : ℕ
dur_write1_relax = 80

unfoldable pub set_state_idle : Ow → Ow
unfolding emit
set_state_idle s = emit timer_off (record s { state = idle; tccr0a = 0 })

-- `sample` and `bitval`: bit `bitidx` of the buffer.
unfoldable pub sample : Bool → Ow → Ow
sample v s =
    let byte = s.bitidx / 8 in
    let bitmask = 2 ^ (s.bitidx % 8) in
    let old = get_or s.ow_data byte 0 in
    record s {
      ow_data = set s.ow_data byte (if v then set_bits old bitmask else clear_bits old bitmask);
    }

unfoldable pub bitval : Ow → Bool
bitval s = has_bits (get_or s.ow_data (s.bitidx / 8) 0) (2 ^ (s.bitidx % 8))
