-- ===== src/Pru/Bounds.antt =====
-- The buffer of the 1-wire master of pru/ow_sm.c, when the daemon waits for the end of an operation before
-- it asks for the next one.
use byt.Base.{
  ℕ, ◌+◌, ◌/◌, ◌%◌, ◌^◌, ◌≤◌, ◌<◌, ◌≡◌, refl, ◌∙◌, Bool, true, false, not, ◌==◌, if◌then◌else◌,
  length, length-set, get_or, bit_and, set_bits, clear_bits, length-drop, arith,
}
use byt.Pru.{
  ResponseCode, ow_search_result11, ow_read_bits_failure, ow_write_bits_failure, ow_bus_failure1,
  ow_no_presence, ow_bus_failure_timeout, ow_presence_ok,
}
use byt.Pru.Wire.{
  OwState, idle, init_wait_reset_pulse_falling_edge, init_wait_reset_pulse_finished,
  init_wait_presence, init_wait_presence_cleared, init_wait_recovery, released, Wire,
  wait_reset_pulse_check1, wait_reset_pulse, wait_presence_pulse, wait_presence_cleared,
  wait_init_recovery, finish, finish_with_param, send_status, send_status_with_param,
  send_status_with_data, set_param, sample, start_bit, write_bit, read_bit,
}
use byt.Pru.Master.{
  is_over, after_write, after_read, after_pair, after_search_read, after_search_write,
  search_result, set_bit2, read_pair, get_direction, write_bits, read_bits, search, handler,
  ow_sm_do,
}

-- The index of the bit lies inside the bits asked for, and these inside the buffer.
pub record Inv (s : Wire) : Type 0 where
  pub room : length s.ow_data ≡ 12
  pub reading : s.state ≡ OwState.read_bits → (s.bitidx < s.bits_count) × (s.bits_count ≤ 96)
  pub writing : s.state ≡ OwState.write_bits → (s.bitidx < s.bits_count) × (s.bits_count ≤ 96)
  pub searching : s.state ≡ OwState.search → s.bitidx ≤ 2

abbrev pub SameFrame : Wire → Wire → Type 0
SameFrame t s =
    (t.state ≡ s.state)
    × (t.bitidx ≡ s.bitidx)
    × (t.bits_count ≡ s.bits_count)
    × (length t.ow_data ≡ length s.ow_data)

pub read_bit_keeps : (now : ℕ) (active : Bool) (s : Wire) → SameFrame (read_bit now active s) s
unfolding read_bit start_bit sample
read_bit_keeps now active s =
    let old = get_or s.ow_data (s.bitidx / 8) 0 in
    let bitmask = 2 ^ (s.bitidx % 8) in
    let v = if not active then set_bits old bitmask else clear_bits old bitmask in
    ground (arith, length-set s.ow_data (s.bitidx / 8) v)

pub write_bit_keeps : (now : ℕ) (active : Bool) (s : Wire) → SameFrame (write_bit now active s) s
unfolding write_bit start_bit
write_bit_keeps now active s = ground (arith)

after_read-Inv : (s : Wire) → s.state ≡ OwState.read_bits → Inv s → Inv (after_read s)
unfolding after_read finish send_status send_status_with_data is_over
after_read-Inv s e h = ground (arith)

after_write-Inv : (s : Wire) → s.state ≡ OwState.write_bits → Inv s → Inv (after_write s)
unfolding after_write finish send_status is_over
after_write-Inv s e h = ground (arith)

SameFrame-Inv : (t s : Wire) → SameFrame t s → Inv s → Inv t
SameFrame-Inv t s k h = ground (arith)

set_bit2_keeps : (v : Bool) (s : Wire) → SameFrame (set_bit2 v s) s
unfolding set_bit2
set_bit2_keeps true s =
    (refl, refl, refl, length-set s.ow_data 0 (set_bits (get_or s.ow_data 0 0) 4))
set_bit2_keeps false s =
    (refl, refl, refl, length-set s.ow_data 0 (clear_bits (get_or s.ow_data 0 0) 4))

finish-Inv : (c : ResponseCode) (s : Wire) → length s.ow_data ≡ 12 → Inv (finish c s)
unfolding finish send_status
finish-Inv c s h = ground (arith)

after_pair-Inv : (s : Wire) → Inv s → Inv (after_pair s)
unfolding after_pair read_pair get_direction
after_pair-Inv s h =
    let v = bit_and (get_or s.ow_data 0 0) 3 in
    either (v == 3) (finish ow_search_result11 s)
      (if not (v == 0) then set_bit2 (v == 1) s else set_bit2 (get_direction s) s)
      (finish-Inv ow_search_result11 s h.room)
      (either (not (v == 0)) (set_bit2 (v == 1) s) (set_bit2 (get_direction s) s)
        (SameFrame-Inv (set_bit2 (v == 1) s) s (set_bit2_keeps (v == 1) s) h)
        (SameFrame-Inv (set_bit2 (get_direction s) s) s (set_bit2_keeps (get_direction s) s) h))
  where
    either : (b : Bool) (x y : Wire) → Inv x → Inv y → Inv (if b then x else y)
    either true x y p q = p
    either false x y p q = q

after_search_read-Inv :
    (s : Wire) → s.state ≡ OwState.search → s.bitidx < 2 → Inv s → Inv (after_search_read s)
unfolding after_search_read
after_search_read-Inv s e k h =
    let n = record s { bitidx = s.bitidx + 1 } in
    ground (arith, after_pair-Inv n, finish-Inv ow_read_bits_failure s)

after_search_write-Inv : (s : Wire) → Inv s → Inv (after_search_write s)
unfolding after_search_write
after_search_write-Inv s h =
    ground (arith, finish-Inv ow_write_bits_failure s, finish-Inv (search_result (read_pair s)) s)

search-Inv :
    (now : ℕ) (active : Bool) (s : Wire)
    → s.state ≡ OwState.search
    → Inv s
    → Inv (search now active s)
unfolding search
search-Inv now active s e h =
    let r = read_bit_keeps now active s in
    let w = write_bit_keeps now active s in
    ground (
      arith,
      after_search_read-Inv (read_bit now active s),
      SameFrame-Inv (read_bit now active s) s r h,
      after_search_write-Inv (write_bit now active s)
          (SameFrame-Inv (write_bit now active s) s w h),
      r,
    )

finish_with_param-Inv :
    (c : ResponseCode) (s : Wire) → length s.ow_data ≡ 12 → Inv (finish_with_param c s)
unfolding finish_with_param send_status_with_param
finish_with_param-Inv c s h = ground (arith)

length-set_param : (v : ℕ) (s : Wire) → length s.ow_data ≡ 12 → length (set_param v s).ow_data ≡ 12
unfolding set_param
length-set_param v s h = omega (arith, length-drop 4 s.ow_data)

reset-Inv :
    (now : ℕ) (active : Bool) (s : Wire) → Inv s → Inv (wait_reset_pulse_check1 now active s)
unfolding wait_reset_pulse_check1
reset-Inv now active s h =
    ground
      (arith, length-drop 4 s.ow_data, finish-Inv ow_bus_failure1 (record s { line = released }))

pulse-Inv : (now : ℕ) (s : Wire) → Inv s → Inv (wait_reset_pulse now s)
unfolding wait_reset_pulse
pulse-Inv now s h = ground (arith)

presence-Inv : (now : ℕ) (s : Wire) → Inv s → Inv (wait_presence_pulse now s)
unfolding wait_presence_pulse
presence-Inv now s h = ground (arith)

cleared-Inv :
    (now : ℕ) (active : Bool) (s : Wire) → Inv s → Inv (wait_presence_cleared now active s)
unfolding wait_presence_cleared
cleared-Inv now active s h =
    ground (
      arith,
      finish_with_param-Inv ow_no_presence s,
      finish_with_param-Inv ow_bus_failure_timeout s,
    )

recovery-Inv : (now : ℕ) (s : Wire) → Inv s → Inv (wait_init_recovery now s)
unfolding wait_init_recovery
recovery-Inv now s h = ground (arith, finish_with_param-Inv ow_presence_ok s)

-- The handler of each state keeps the invariant.
handler-Inv :
    (now : ℕ) (active : Bool) (s : Wire) (x : OwState)
    → s.state ≡ x
    → Inv s
    → Inv (handler x now active s)
unfolding handler read_bits write_bits
handler-Inv now active s idle e h = h
handler-Inv now active s init_wait_reset_pulse_falling_edge e h = (reset-Inv now active s h)
handler-Inv now active s init_wait_reset_pulse_finished e h = (pulse-Inv now s h)
handler-Inv now active s init_wait_presence e h = (presence-Inv now s h)
handler-Inv now active s init_wait_presence_cleared e h = (cleared-Inv now active s h)
handler-Inv now active s init_wait_recovery e h = (recovery-Inv now s h)
handler-Inv now active s OwState.read_bits e h =
    let k = read_bit_keeps now active s in
    (after_read-Inv (read_bit now active s) (k.0 ∙ e) (SameFrame-Inv (read_bit now active s) s k h))
handler-Inv now active s OwState.write_bits e h =
    let k = write_bit_keeps now active s in
    (after_write-Inv (write_bit now active s) (k.0 ∙ e)
      (SameFrame-Inv (write_bit now active s) s k h))
handler-Inv now active s OwState.search e h = (search-Inv now active s e h)

-- A call keeps the invariant, whatever the timer and the line show.
pub ow_sm_do-Inv : (now : ℕ) (active : Bool) (s : Wire) → Inv s → Inv (ow_sm_do now active s)
unfolding ow_sm_do
ow_sm_do-Inv now active s h = handler-Inv now active s s.state refl h
