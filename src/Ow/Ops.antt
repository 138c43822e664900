-- ===== src/Ow/Ops.antt =====
-- The commands and the interrupt handler of avr/fw/ow_sm.cpp. `active` is what `bus_active` reads
-- at the pin; no handler reads it twice. The part of a command between `cli` and `sei` and each
-- call of the handler are one step.
use byt.Base.{
  ℕ, ◌+◌, ◌-◌, ◌%◌, Bool, true, false, not, List, [], ◌∷◌, bit_and, leb, ◌==◌, if◌then◌else◌,
  get_or, set, set_bits, clear_bits, to_nat, ◌&&◌,
}
use byt.Ow.Bus.{
  Response, busy, rsp_error, presence_ok, bus_failure0, bus_failure1, no_presence, bus_failure3,
  read_bits_ok, read_bits_failure, write_bits_ok, write_bits_failure, search_result0,
  search_result1, search_result11, search_result00, OwState, idle, init_wait_reset_pulse_finished,
  init_wait_presence, init_wait_presence_cleared, reading_bits, writing_bits, searching, BitIoState,
  finished_ok, finished_error, wait_sample_event, wait_slot_end, StrongPower, power0, power_req,
  keep_after_write, Ow, bus_pull, bus_release, bus_power_strong, response, schedule_timeout,
  dur_reset_pulse, dur_wait_presence, dur_wait_presence_cleared, dur_read_sample, dur_slot,
  dur_write0_pulse, dur_write0_relax, dur_write1_relax, set_state_idle, sample, bitval,
}

unfoldable pub wait_reset_pulse : Bool → Ow → Ow
unfolding response set_state_idle bus_release schedule_timeout
wait_reset_pulse active s =
    if not active
    then bus_release (set_state_idle (response bus_failure1 s))
    else let s = schedule_timeout dur_wait_presence (bus_release s) in
      record s { state = init_wait_presence }

unfoldable pub wait_presence_pulse : Bool → Ow → Ow
unfolding response set_state_idle schedule_timeout
wait_presence_pulse active s =
    if active
    then schedule_timeout dur_wait_presence_cleared
        (record s { state = init_wait_presence_cleared })
    else set_state_idle (response no_presence s)

unfoldable pub wait_presence_cleared : Bool → Ow → Ow
unfolding response set_state_idle
wait_presence_cleared active s =
    set_state_idle (if not active then response presence_ok s else response bus_failure3 s)

abbrev pub is_keep : StrongPower → Bool
is_keep keep_after_write = true
is_keep _ = false

abbrev pub is_req : StrongPower → Bool
is_req power_req = true
is_req _ = false

unfoldable pub bus_releasy_after_write : Ow → Ow
unfolding bus_power_strong bus_release
bus_releasy_after_write s =
    let strong = bus_power_strong s in
    if is_keep s.strong_power_request
    then record strong { strong_power_request = power0 }
    else bus_release s

unfoldable pub start_write_bit : Ow → Ow
unfolding bus_pull bus_releasy_after_write schedule_timeout bitval
start_write_bit s =
    let s = bus_pull s in
    let one = bus_releasy_after_write s in
    if bitval s
    then schedule_timeout dur_write1_relax (record one { bit_io_state = wait_slot_end })
    else schedule_timeout dur_write0_pulse (record s { bit_io_state = wait_sample_event })

-- The switch of `write_bit`; the status that it returns is the field `bit_io_state`.
unfoldable pub write_bit_in : BitIoState → Ow → Ow
unfolding schedule_timeout bus_releasy_after_write
write_bit_in wait_sample_event s =
    let s = bus_releasy_after_write (schedule_timeout dur_write0_relax s) in
    record s { bit_io_state = wait_slot_end }
write_bit_in wait_slot_end s = record s { bit_io_state = finished_ok }
write_bit_in _ s = record s { bit_io_state = finished_error }

unfoldable pub write_bit : Ow → Ow
write_bit s = write_bit_in s.bit_io_state s

unfoldable pub start_read_bit : Ow → Ow
unfolding bus_pull bus_release schedule_timeout
start_read_bit s =
    let s = schedule_timeout dur_read_sample (bus_release (bus_pull s)) in
    record s { bit_io_state = wait_sample_event }

unfoldable pub read_bit_in : BitIoState → Bool → Ow → Ow
unfolding schedule_timeout sample
read_bit_in wait_sample_event active s =
    let s = sample (not active) s in
    schedule_timeout dur_slot (record s { bit_io_state = wait_slot_end })
read_bit_in wait_slot_end active s = record s { bit_io_state = finished_ok }
read_bit_in _ active s = record s { bit_io_state = finished_error }

unfoldable pub read_bit : Bool → Ow → Ow
read_bit active s = read_bit_in s.bit_io_state active s

-- `++sBitidx`.
unfoldable pub next_bit : Ow → Ow
next_bit s = record s { bitidx = (s.bitidx + 1) % 256 }

-- Before the last bit goes out, a request for strong power becomes due. The test runs only for a
-- count above 0, so that `gOwBitsCount-1` is not negative.
unfoldable pub arm_strong_power : Ow → Ow
arm_strong_power s =
    if is_req s.strong_power_request && s.bitidx == s.bits_count - 1
    then record s { strong_power_request = keep_after_write }
    else s

unfoldable pub after_write_bit : BitIoState → Ow → Ow
after_write_bit finished_error s = set_state_idle (bus_release (response write_bits_failure s))
after_write_bit finished_ok s =
    let s = next_bit s in
    if leb s.bits_count s.bitidx
    then set_state_idle (response write_bits_ok s)
    else start_write_bit (arm_strong_power s)
after_write_bit _ s = s

unfoldable pub do_write_bits : Ow → Ow
do_write_bits s = let s = write_bit s in after_write_bit s.bit_io_state s

unfoldable pub after_read_bit : BitIoState → Ow → Ow
after_read_bit finished_error s = set_state_idle (bus_release (response read_bits_failure s))
after_read_bit finished_ok s =
    let s = next_bit s in
    if leb s.bits_count s.bitidx then set_state_idle (response read_bits_ok s) else start_read_bit s
after_read_bit _ s = s

unfoldable pub do_read_bits : Bool → Ow → Ow
do_read_bits active s = let s = read_bit active s in after_read_bit s.bit_io_state s

unfoldable pub store_direction : Bool → Ow → Ow
store_direction direction s = record s { ow_data = set s.ow_data 1 (to_nat direction) }

unfoldable pub get_direction : Ow → Bool
get_direction s = not (get_or s.ow_data 1 0 == 0)

unfoldable pub set_bit2 : Bool → Ow → Ow
set_bit2 v s =
    let old = get_or s.ow_data 0 0 in
    record s { ow_data = set s.ow_data 0 (if v then set_bits old 4 else clear_bits old 4) }

-- `do_search` while the two bits are read: after the second one the direction is chosen.
unfoldable pub after_search_read : BitIoState → Ow → Ow
after_search_read finished_error s = bus_release (set_state_idle (response read_bits_failure s))
after_search_read finished_ok s =
    let s = next_bit s in
    let v = bit_and (get_or s.ow_data 0 0) 3 in
    if s.bitidx == 2
    then if v == 3
      then set_state_idle (response search_result11 s)
      else start_write_bit (set_bit2 (if v == 0 then get_direction s else v == 1) s)
    else start_read_bit s
after_search_read _ s = s

unfoldable pub search_result : ℕ → Response
search_result v =
    if v == 0
    then search_result00
    else if v == 1
    then search_result0
    else if v == 2
    then search_result1
    else search_result11

unfoldable pub after_search_write : BitIoState → Ow → Ow
after_search_write finished_error s =
    let s = response write_bits_failure s in record s { state = idle }
after_search_write finished_ok s =
    set_state_idle (response (search_result (bit_and (get_or s.ow_data 0 0) 3)) s)
after_search_write _ s = s

unfoldable pub do_search : Bool → Ow → Ow
do_search active s =
    let r = read_bit active s in
    let w = write_bit s in
    if leb s.bitidx 1
    then after_search_read r.bit_io_state r
    else if s.bitidx == 2
    then after_search_write w.bit_io_state w
    else s

abbrev pub is_idle : OwState → Bool
is_idle idle = true
is_idle _ = false

-- The overflow flag is cleared by writing it, and the overflow interrupt enabled.
unfoldable pub arm_timer : Ow → Ow
arm_timer s = record s { tifr0 = set_bits s.tifr0 1; timsk0 = 1 }

unfoldable pub read_bits : ℕ → Ow → Ow
read_bits count s =
    if not (is_idle s.state)
    then response rsp_error s
    else let s = response busy s in
      start_read_bit (arm_timer (record s { bits_count = count; bitidx = 0; state = reading_bits }))

unfoldable pub write_bits : ℕ → Bool → Ow → Ow
write_bits count strong_power_req s =
    if not (is_idle s.state)
    then response rsp_error s
    else let s = response busy s in
      start_write_bit (
        arm_timer (record s {
          bits_count = count;
          bitidx = 0;
          strong_power_request = if strong_power_req then power_req else power0;
          state = writing_bits;
        }))

unfoldable pub search : Bool → Ow → Ow
search direction s =
    if not (is_idle s.state)
    then response rsp_error s
    else let s = store_direction direction (response busy s) in
      start_read_bit (arm_timer (record s { bitidx = 0; state = searching }))

unfoldable pub init : Bool → Ow → Ow
init active s =
    if not (is_idle s.state)
    then response rsp_error s
    else if active
    then bus_release (response bus_failure0 s)
    else let s = bus_pull (arm_timer (schedule_timeout dur_reset_pulse (response busy s))) in
      record s { state = init_wait_reset_pulse_finished }

-- The switch of `ow_sm_do`, the handler of the timer interrupt.
unfoldable pub ow_sm_in : OwState → Bool → Ow → Ow
ow_sm_in init_wait_reset_pulse_finished active s = wait_reset_pulse active s
ow_sm_in init_wait_presence active s = wait_presence_pulse active s
ow_sm_in init_wait_presence_cleared active s = wait_presence_cleared active s
ow_sm_in reading_bits active s = do_read_bits active s
ow_sm_in writing_bits active s = do_write_bits s
ow_sm_in searching active s = do_search active s
ow_sm_in _ active s = s

unfoldable pub ow_sm_do : Bool → Ow → Ow
ow_sm_do active s = ow_sm_in s.state active s

-- The handler once for each sample of the bus.
unfoldable pub run : List Bool → Ow → Ow
run [] s = s
run (active ∷ rest) s = run rest (ow_sm_do active s)

-- Opens the whole handler, for runs on concrete inputs.
unfoldable pub all_ops : Unit {0}
unfolding wait_reset_pulse wait_presence_pulse wait_presence_cleared start_write_bit write_bit_in
    write_bit start_read_bit read_bit_in read_bit next_bit arm_strong_power after_write_bit
    do_write_bits after_read_bit do_read_bits store_direction get_direction set_bit2
    after_search_read search_result after_search_write do_search arm_timer read_bits write_bits
    search init ow_sm_in ow_sm_do run
all_ops = tt
