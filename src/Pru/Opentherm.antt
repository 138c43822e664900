-- ===== src/Pru/Opentherm.antt =====
-- The OpenTherm line of the real-time unit, pru/opentherm_sm.c. The timer and the level of the line
-- are inputs of each call.
use byt.Base.{
  ℕ, ◌+◌, ◌-◌, ◌/◌, ◌^◌, Bool, true, false, not, ◌&&◌, ◌||◌, List, ◌∷◌, ltb, leb, ◌==◌,
  if◌then◌else◌, set_bits, has_bits,
}
use byt.Pru.{
  Reply, status, frame, rsp_error, ot_no_response, ot_frame_error, ot_bus_error, ot_ok, us_ticks,
  elapsed, timeout,
}

pub data OtState : Type 0 where
  idle write_frame frame_wait_gap wait_frame read_bits frame_error_wait_gap : OtState

-- The static variables, the level that the unit drives, and the messages sent, newest first. `left` is
-- `sBitidx + 2`: 34 at the start bit, 33 to 2 at the bits 31 to 0 of the frame, 1 at the stop bit, 0
-- after it.
pub record Ot : Type 0 where
  pub state : OtState
  pub prev_v : Bool
  pub t0 : ℕ
  pub t0_frame : ℕ
  pub left : ℕ
  pub value : ℕ
  pub bus : Bool
  pub replies : List Reply

abbrev pub dur_error_gap : ℕ
dur_error_gap = us_ticks 50000

abbrev pub dur_error_frame_timeout : ℕ
dur_error_frame_timeout = us_ticks 150000

abbrev pub dur_gap : ℕ
dur_gap = us_ticks 10000

abbrev pub dur_response_timeout : ℕ
dur_response_timeout = us_ticks 800000

abbrev pub dur_bit : ℕ
dur_bit = us_ticks 1000

abbrev pub dur_half_bit : ℕ
dur_half_bit = dur_bit / 2

abbrev pub dur_bit_capture_min : ℕ
dur_bit_capture_min = dur_bit - us_ticks 100

abbrev pub dur_bit_capture_max : ℕ
dur_bit_capture_max = dur_bit + us_ticks 150

abbrev pub is_idle : OtState → Bool
is_idle idle = true
is_idle _ = false

-- `ot_transmit`.
unfoldable pub ot_transmit : ℕ → ℕ → Ot → Ot
ot_transmit now w s =
    if not (is_idle s.state)
    then record s { replies = status rsp_error ∷ s.replies }
    else record s { state = write_frame; value = w; t0 = now; left = 34 }

-- The level of the first half of a bit.
unfoldable pub current : Ot → Bool
current s = if leb 2 s.left && ltb s.left 34 then has_bits s.value (2 ^ (s.left - 2)) else true

-- A call in `eOtWriteFrame`.
unfoldable pub on_write : ℕ → Ot → Ot
on_write now s =
    let cur = current s in
    let last = ltb (s.left - 1) 1 in
    if timeout now s.t0 dur_bit
    then record s {
      bus = not cur;
      t0 = now;
      left = s.left - 1;
      state = if last then frame_wait_gap else s.state;
    }
    else if timeout now s.t0 dur_half_bit
    then record s { bus = cur }
    else s

-- A call in `eOtWaitFrame`, with the level of the line.
unfoldable pub on_wait_frame : ℕ → Bool → Ot → Ot
on_wait_frame now line s =
    if line
    then record s {
      t0 = elapsed now dur_half_bit;
      t0_frame = now;
      left = 34;
      prev_v = true;
      value = 0;
      state = read_bits;
    }
    else if timeout now s.t0 dur_response_timeout
    then record s { replies = status ot_no_response ∷ s.replies; state = idle }
    else s

-- A transition in the middle of a bit.
unfoldable pub on_bit : ℕ → Ot → Ot
on_bit now s =
    let t = record s { t0 = now; left = s.left - 1 } in
    if s.left == 1 || s.left == 34
    then (if not s.prev_v
        then record t { state = frame_error_wait_gap }
        else if s.left == 1
        then record t { replies = frame ot_ok s.value ∷ s.replies; state = idle }
        else t)
    else if ltb s.left 34
    then (if s.prev_v then record t { value = set_bits s.value (2 ^ (s.left - 2)) } else t)
    else t

-- `a != b` of two levels.
abbrev pub differ : Bool → Bool → Bool
differ true b = not b
differ false b = b

-- A call in `eOtReadBits`.
unfoldable pub on_read : ℕ → Bool → Ot → Ot
unfolding on_bit
on_read now line s =
    if differ s.prev_v line
    then (let t = if timeout now s.t0 dur_bit_capture_min then on_bit now s else s in
        record t { prev_v = not s.prev_v })
    else if timeout now s.t0 dur_bit_capture_max
    then record s { state = frame_error_wait_gap }
    else s

-- A call in `eOtFrameErrorWaitGap`.
unfoldable pub on_error : ℕ → Bool → Ot → Ot
on_error now line s =
    if differ s.prev_v line
    then record s { t0 = now; prev_v = not s.prev_v }
    else if not line && timeout now s.t0 dur_error_gap
    then record s {
      replies = frame ot_frame_error (elapsed s.t0 s.t0_frame) ∷ s.replies;
      state = idle;
    }
    else if timeout now s.t0_frame dur_error_frame_timeout
    then record s { replies = status ot_bus_error ∷ s.replies; state = idle }
    else s

-- `ot_sm_do`.
unfoldable pub ot_sm_do : ℕ → Bool → Ot → Ot
unfolding on_write on_wait_frame on_read on_error
ot_sm_do now line s = elim s.state [
  | idle ↦ s
  | write_frame ↦ on_write now s
  | wait_frame ↦ on_wait_frame now line s
  | read_bits ↦ on_read now line s
  | frame_error_wait_gap ↦ on_error now line s
  | frame_wait_gap ↦ if timeout now s.t0 dur_gap then record s { state = wait_frame } else s
]
