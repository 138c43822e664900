-- ===== src/Pru/Wire.antt =====
-- The 1-wire master of the real-time unit, pru/ow_sm.c. The timer and whether the line is low are
-- inputs of each call, and do not change within it.
use byt.Base.{
  ℕ, ◌+◌, ◌-◌, ◌*◌, ◌/◌, ◌%◌, ◌^◌, Bool, true, false, not, List, ◌∷◌, if◌then◌else◌, get_or, set,
  take, drop, set_bits, clear_bits, has_bits,
}
use byt.Pru.{
  ResponseCode, Reply, status, param, bytes, ow_presence_ok, ow_bus_failure1, ow_no_presence,
  ow_bus_failure_timeout, us_ticks, elapsed, timeout,
}

pub data OwState : Type 0 where
  idle init_wait_reset_pulse_falling_edge init_wait_reset_pulse_finished : OwState
  init_wait_presence init_wait_presence_cleared init_wait_recovery : OwState
  read_bits write_bits search : OwState

pub data BitIo : Type 0 where
  finished_ok finished_error read_pulse wait_sample_event wait_slot_end : BitIo

pub data Strong : Type 0 where
  strong0 strong_req keep_after_write : Strong

-- What the two outputs do to the line: `bus_release`, `bus_pull`, `bus_power_strong`.
pub data Line : Type 0 where
  released pulled powered : Line

-- The static variables, `gOwBitsCount`, `gOwData` as its twelve bytes, the line, and the messages sent,
-- newest first.
pub record Wire : Type 0 where
  pub state : OwState
  pub bit_io : BitIo
  pub strong : Strong
  pub t0 : ℕ
  pub bitidx : ℕ
  pub bits_count : ℕ
  pub ow_data : List ℕ
  pub line : Line
  pub replies : List Reply

abbrev pub dur_falling_edge : ℕ
dur_falling_edge = us_ticks 10

abbrev pub dur_reset_pulse : ℕ
dur_reset_pulse = us_ticks 480

abbrev pub dur_wait_presence : ℕ
dur_wait_presence = dur_reset_pulse + us_ticks 60

abbrev pub dur_presence_min : ℕ
dur_presence_min = us_ticks 15

abbrev pub dur_presence_max : ℕ
dur_presence_max = us_ticks 240

abbrev pub dur_init_master_rx : ℕ
dur_init_master_rx = us_ticks 480

abbrev pub dur_read_init : ℕ
dur_read_init = us_ticks 1

abbrev pub dur_read_sample : ℕ
dur_read_sample = us_ticks 15

abbrev pub dur_write0_pulse : ℕ
dur_write0_pulse = us_ticks 64

abbrev pub dur_write1_pulse : ℕ
dur_write1_pulse = us_ticks 1

abbrev pub dur_slot : ℕ
dur_slot = us_ticks 100

-- `gOwData.param = v`, of 32 bits.
unfoldable pub set_param : ℕ → Wire → Wire
set_param v s = record s {
  ow_data = v % 256 ∷ v / 256 % 256 ∷ v / 2 ^ 16 % 256 ∷ v / 2 ^ 24 % 256 ∷ drop 4 s.ow_data;
}

unfoldable pub get_param : Wire → ℕ
get_param s =
    get_or s.ow_data 0 0
    + (get_or s.ow_data 1 0 * 256 + (get_or s.ow_data 2 0 * 2 ^ 16 + get_or s.ow_data 3 0 * 2 ^ 24))

-- `send_status`, `send_status_with_param` and `send_status_with_data` of pru/main.c.
unfoldable pub send_status : ResponseCode → Wire → Wire
send_status code s = record s { replies = status code ∷ s.replies }

unfoldable pub send_status_with_param : ResponseCode → Wire → Wire
unfolding get_param
send_status_with_param code s = record s { replies = param code (get_param s) ∷ s.replies }

unfoldable pub send_status_with_data : ResponseCode → Wire → Wire
send_status_with_data code s =
    let len = 1 + (s.bits_count - 1) / 8 in
    record s { replies = bytes code (take len s.ow_data) ∷ s.replies }

-- A message, and back to idle.
unfoldable pub finish : ResponseCode → Wire → Wire
unfolding send_status
finish code s = record (send_status code s) { state = idle }

unfoldable pub finish_with_param : ResponseCode → Wire → Wire
unfolding send_status_with_param
finish_with_param code s = record (send_status_with_param code s) { state = idle }

unfoldable pub wait_reset_pulse_check1 : ℕ → Bool → Wire → Wire
unfolding set_param finish
wait_reset_pulse_check1 now active s =
    if active
    then record (set_param (elapsed now s.t0) s) {
      state = init_wait_reset_pulse_finished;
      t0 = now;
    }
    else if timeout now s.t0 dur_falling_edge
    then finish ow_bus_failure1 (record s { line = released })
    else s

unfoldable pub wait_reset_pulse : ℕ → Wire → Wire
wait_reset_pulse now s =
    if timeout now s.t0 dur_reset_pulse
    then record s { line = released; state = init_wait_presence }
    else s

unfoldable pub wait_presence_pulse : ℕ → Wire → Wire
wait_presence_pulse now s =
    if timeout now s.t0 dur_wait_presence
    then record s { state = init_wait_presence_cleared; t0 = now }
    else s

unfoldable pub wait_presence_cleared : ℕ → Bool → Wire → Wire
unfolding finish_with_param
wait_presence_cleared now active s =
    if not active
    then (if timeout now s.t0 dur_presence_min
        then record s { state = init_wait_recovery }
        else finish_with_param ow_no_presence s)
    else if timeout now s.t0 dur_presence_max
    then finish_with_param ow_bus_failure_timeout s
    else s

unfoldable pub wait_init_recovery : ℕ → Wire → Wire
unfolding finish_with_param
wait_init_recovery now s =
    if timeout now s.t0 dur_init_master_rx then finish_with_param ow_presence_ok s else s

unfoldable pub sample : Bool → Wire → Wire
unfolding set_bits clear_bits
sample active s =
    let byte = s.bitidx / 8 in
    let bitmask = 2 ^ (s.bitidx % 8) in
    let old = get_or s.ow_data byte 0 in
    record s {
      ow_data =
          set s.ow_data byte (if not active then set_bits old bitmask else clear_bits old bitmask);
    }

unfoldable pub bitval : Wire → Bool
unfolding has_bits
bitval s = has_bits (get_or s.ow_data (s.bitidx / 8) 0) (2 ^ (s.bitidx % 8))

abbrev pub is_keep : Strong → Bool
is_keep keep_after_write = true
is_keep _ = false

-- The first call of a bit: nothing may hold the line low.
unfoldable pub start_bit : BitIo → ℕ → Bool → Wire → Wire
start_bit next now active s =
    if active
    then record s { bit_io = finished_error }
    else record s { line = pulled; t0 = now; bit_io = next }

unfoldable pub write_bit : ℕ → Bool → Wire → Wire
unfolding start_bit
write_bit now active s = elim s.bit_io [
  | finished_ok ↦ start_bit wait_sample_event now active s
  | finished_error ↦ start_bit wait_sample_event now active s
  | wait_sample_event ↦
      if timeout now s.t0 (if bitval s then dur_write1_pulse else dur_write0_pulse)
      then (let t =
            if is_keep s.strong
            then record s { line = powered; strong = strong0 }
            else record s { line = released } in
          record t { bit_io = wait_slot_end })
      else s
  | wait_slot_end ↦ if timeout now s.t0 dur_slot then record s { bit_io = finished_ok } else s
  | read_pulse ↦ record s { bit_io = finished_error }
]

unfoldable pub read_bit : ℕ → Bool → Wire → Wire
unfolding start_bit sample
read_bit now active s = elim s.bit_io [
  | finished_ok ↦ start_bit read_pulse now active s
  | finished_error ↦ start_bit read_pulse now active s
  | read_pulse ↦
      if timeout now s.t0 dur_read_init
      then record s { line = released; bit_io = wait_sample_event }
      else s
  | wait_sample_event ↦
      if timeout now s.t0 dur_read_sample
      then record (sample active s) { bit_io = wait_slot_end }
      else s
  | wait_slot_end ↦ if timeout now s.t0 dur_slot then record s { bit_io = finished_ok } else s
]
