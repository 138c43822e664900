-- ===== src/Pru/Master.antt =====
-- The operations of the 1-wire master of pru/ow_sm.c: the reset, reading and writing bits, a step of the
-- search.
use byt.Base.{
  ℕ, ◌+◌, ◌-◌, ◌^◌, Bool, true, false, not, ◌&&◌, ◌||◌, leb, ◌==◌, if◌then◌else◌, to_nat, get_or,
  set, bit_and, set_bits, clear_bits,
}
use byt.Pru.{
  ResponseCode, rsp_error, ow_bus_failure0, ow_read_bits_ok, ow_read_bits_failure, ow_write_bits_ok,
  ow_write_bits_failure, ow_search_result0, ow_search_result1, ow_search_result11,
  ow_search_result00,
}
use byt.Pru.Wire.{
  OwState, idle, init_wait_reset_pulse_falling_edge, init_wait_reset_pulse_finished,
  init_wait_presence, init_wait_presence_cleared, init_wait_recovery, finished_ok, finished_error,
  Strong, strong0, strong_req, keep_after_write, released, pulled, Wire, set_param, send_status,
  send_status_with_data, finish, wait_reset_pulse_check1, wait_reset_pulse, wait_presence_pulse,
  wait_presence_cleared, wait_init_recovery, write_bit, read_bit,
}

-- `sBitidx >= gOwBitsCount`, the count being a signed word.
unfoldable pub is_over : ℕ → ℕ → Bool
is_over idx count = leb (2 ^ 31) count || leb count idx

abbrev pub is_req : Strong → Bool
is_req strong_req = true
is_req _ = false

-- What `write_bits` makes of the state that `write_bit` leaves.
unfoldable pub after_write : Wire → Wire
unfolding is_over finish
after_write s =
    let n = record s { bitidx = s.bitidx + 1 } in
    elim s.bit_io [
      | finished_error ↦ record s { state = idle }
      | finished_ok ↦ if is_over n.bitidx n.bits_count then finish ow_write_bits_ok n else n
      | _ ↦
          if is_req s.strong && (s.bitidx + 1 == s.bits_count)
          then record s { strong = keep_after_write }
          else s
    ]

-- What `read_bits` makes of the state that `read_bit` leaves.
unfoldable pub after_read : Wire → Wire
unfolding is_over finish send_status_with_data
after_read s =
    let n = record s { bitidx = s.bitidx + 1 } in
    elim s.bit_io [
      | finished_error ↦ finish ow_read_bits_failure s
      | finished_ok ↦
          if is_over n.bitidx n.bits_count
          then record (send_status_with_data ow_read_bits_ok n) { state = idle }
          else n
      | _ ↦ s
    ]

unfoldable pub write_bits : ℕ → Bool → Wire → Wire
unfolding after_write write_bit
write_bits now active s = after_write (write_bit now active s)

unfoldable pub read_bits : ℕ → Bool → Wire → Wire
unfolding after_read read_bit
read_bits now active s = after_read (read_bit now active s)

unfoldable pub ow_read_bits : Wire → Wire
ow_read_bits s = record s { bitidx = 0; state = OwState.read_bits }

unfoldable pub ow_write_bits : Bool → Wire → Wire
ow_write_bits strong_power_req s = record s {
  bitidx = 0;
  strong = if strong_power_req then strong_req else strong0;
  state = OwState.write_bits;
}

unfoldable pub store_direction : Bool → Wire → Wire
store_direction direction s = record s { ow_data = set s.ow_data 1 (to_nat direction) }

unfoldable pub get_direction : Wire → Bool
get_direction s = not (get_or s.ow_data 1 0 == 0)

unfoldable pub set_bit2 : Bool → Wire → Wire
unfolding set_bits clear_bits
set_bit2 v s =
    let b = get_or s.ow_data 0 0 in
    record s { ow_data = set s.ow_data 0 (if v then set_bits b 4 else clear_bits b 4) }

-- The two bits that a step of the search has read.
unfoldable pub read_pair : Wire → ℕ
read_pair s = bit_and (get_or s.ow_data 0 0) 3

-- The end of the second bit of a search.
unfoldable pub after_pair : Wire → Wire
unfolding read_pair set_bit2 get_direction finish
after_pair s =
    let v = read_pair s in
    if v == 3
    then finish ow_search_result11 s
    else if not (v == 0)
    then set_bit2 (v == 1) s
    else set_bit2 (get_direction s) s

unfoldable pub after_search_read : Wire → Wire
unfolding after_pair finish
after_search_read s =
    let n = record s { bitidx = s.bitidx + 1 } in
    elim s.bit_io [
      | finished_error ↦ finish ow_read_bits_failure s
      | finished_ok ↦ if n.bitidx == 2 then after_pair n else n
      | _ ↦ s
    ]

-- The message of a search, by the two bits.
unfoldable pub search_result : ℕ → ResponseCode
search_result v =
    if v == 0
    then ow_search_result00
    else if v == 1
    then ow_search_result0
    else if v == 2
    then ow_search_result1
    else ow_search_result11

unfoldable pub after_search_write : Wire → Wire
unfolding search_result read_pair finish
after_search_write s = elim s.bit_io [
  | finished_error ↦ finish ow_write_bits_failure s
  | finished_ok ↦ finish (search_result (read_pair s)) s
  | _ ↦ s
]

unfoldable pub search : ℕ → Bool → Wire → Wire
unfolding after_search_read after_search_write read_bit write_bit
search now active s =
    if s.bitidx == 0 || s.bitidx == 1
    then after_search_read (read_bit now active s)
    else if s.bitidx == 2
    then after_search_write (write_bit now active s)
    else s

unfoldable pub ow_search : Bool → Wire → Wire
unfolding store_direction
ow_search direction s = record (store_direction direction s) { bitidx = 0; state = OwState.search }

abbrev pub is_idle : OwState → Bool
is_idle idle = true
is_idle _ = false

unfoldable pub ow_init : ℕ → Bool → Wire → Wire
unfolding send_status set_param
ow_init now active s =
    if not (is_idle s.state)
    then send_status rsp_error s
    else if active
    then record (send_status ow_bus_failure0 s) { line = released }
    else record (set_param (2 ^ 32 - 1) s) {
      line = pulled;
      t0 = now;
      state = init_wait_reset_pulse_falling_edge;
    }

-- The cases of `ow_sm_do`.
unfoldable pub handler : OwState → ℕ → Bool → Wire → Wire
handler idle now active s = s
handler init_wait_reset_pulse_falling_edge now active s = wait_reset_pulse_check1 now active s
handler init_wait_reset_pulse_finished now active s = wait_reset_pulse now s
handler init_wait_presence now active s = wait_presence_pulse now s
handler init_wait_presence_cleared now active s = wait_presence_cleared now active s
handler init_wait_recovery now active s = wait_init_recovery now s
handler OwState.read_bits now active s = read_bits now active s
handler OwState.write_bits now active s = write_bits now active s
handler OwState.search now active s = search now active s

unfoldable pub ow_sm_do : ℕ → Bool → Wire → Wire
unfolding handler
ow_sm_do now active s = handler s.state now active s
