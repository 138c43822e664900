-- ===== src/Pru/Progress.antt =====
-- Every 1-wire operation of pru/ow_sm.c ends, when time goes on between the calls.
use byt.Base.{
  ℕ, ◌+◌, ◌-◌, ◌*◌, ◌≤◌, ◌<◌, ◌≡◌, refl, Bool, true, false, not, List, [], ◌∷◌, ◌==◌, if◌then◌else◌,
  length, get_or, bit_and, arith,
}
use byt.Pru.{elapsed, timeout, ow_search_result11}
use byt.Pru.Wire.{
  OwState, idle, init_wait_reset_pulse_falling_edge, init_wait_reset_pulse_finished,
  init_wait_presence, init_wait_presence_cleared, init_wait_recovery, BitIo, finished_ok,
  finished_error, read_pulse, wait_sample_event, wait_slot_end, Wire, dur_wait_presence,
  wait_reset_pulse_check1, wait_reset_pulse, wait_presence_pulse, wait_presence_cleared,
  wait_init_recovery, finish, finish_with_param, send_status, send_status_with_param,
  send_status_with_data, start_bit, write_bit, read_bit,
}
use byt.Pru.Master.{
  is_over, after_write, after_read, after_pair, set_bit2, read_pair, get_direction,
  after_search_read, after_search_write, write_bits, read_bits, search, handler, ow_sm_do,
}
use byt.Pru.Bounds.{Inv, ow_sm_do-Inv}
use byt.Pru.Message.{Pru}
use byt.Pru.Safety.{Reach, Reach-Inv}

-- The calls that a bit still needs.
abbrev io_rank : BitIo → ℕ
io_rank finished_ok = 4
io_rank finished_error = 4
io_rank read_pulse = 3
io_rank wait_sample_event = 2
io_rank wait_slot_end = 1

-- The calls that an operation still needs.
abbrev rank : OwState → BitIo → ℕ → ℕ → ℕ
rank idle io idx count = 0
rank init_wait_reset_pulse_falling_edge io idx count = 5
rank init_wait_reset_pulse_finished io idx count = 4
rank init_wait_presence io idx count = 3
rank init_wait_presence_cleared io idx count = 2
rank init_wait_recovery io idx count = 1
rank OwState.read_bits io idx count = 4 * (count - idx - 1) + io_rank io
rank OwState.write_bits io idx count = 4 * (count - idx - 1) + io_rank io
rank OwState.search io idx count = 4 * (2 - idx) + io_rank io

abbrev left_over : Wire → ℕ
left_over s = rank s.state s.bit_io s.bitidx s.bits_count

late :
    (now t0 d : ℕ)
    → dur_wait_presence < elapsed now t0
    → d ≤ dur_wait_presence
    → timeout now t0 d ≡ true
unfolding timeout
late now t0 d h k = ground (arith)

-- The end of the pair of a search leaves the master idle, or before the bit to write.
after_pair_rank :
    (t : Wire)
    → t.state ≡ OwState.search
    → t.bit_io ≡ finished_ok
    → t.bitidx ≡ 2
    → left_over (after_pair t) ≤ 4
unfolding after_pair read_pair get_direction
after_pair_rank t e i k =
    let v = bit_and (get_or t.ow_data 0 0) 3 in
    let b = set_bit2 (v == 1) t in
    let c = set_bit2 (not (get_or t.ow_data 1 0 == 0)) t in
    either (v == 3) (finish ow_search_result11 t) (if not (v == 0) then b else c) over
      (either (not (v == 0)) b c (written (v == 1)) (written (not (get_or t.ow_data 1 0 == 0))))
  where
    either :
        (b : Bool) (x y : Wire)
        → left_over x ≤ 4
        → left_over y ≤ 4
        → left_over (if b then x else y) ≤ 4
    either true x y p q = p
    either false x y p q = q

    over : left_over (finish ow_search_result11 t) ≤ 4
    over = unfold finish in omega arith

    written : (b : Bool) → left_over (set_bit2 b t) ≤ 4
    written b = unfold set_bit2 in ground (arith)

pub idle_stays : (now : ℕ) (active : Bool) (s : Wire) → s.state ≡ idle → ow_sm_do now active s ≡ s
unfolding ow_sm_do
idle_stays now active s e = ground (arith)

module _ (now : ℕ) (active : Bool) (s : Wire) (slow : dur_wait_presence < elapsed now s.t0)
    (h : Inv s) where
  reading :
      (io : BitIo)
      → s.state ≡ OwState.read_bits
      → s.bit_io ≡ io
      → left_over (read_bits now active s) ≤ left_over s - 1
  unfolding read_bits read_bit after_read start_bit finish send_status send_status_with_data is_over
  reading finished_ok e i = ground (arith)
  reading finished_error e i = ground (arith)
  reading read_pulse e i = ground (arith, late now s.t0 200 slow)
  reading wait_sample_event e i = ground (arith, late now s.t0 3000 slow)
  reading wait_slot_end e i = ground (arith, late now s.t0 20000 slow, h.reading e)

  writing :
      (io : BitIo)
      → s.state ≡ OwState.write_bits
      → s.bit_io ≡ io
      → left_over (write_bits now active s) ≤ left_over s - 1
  unfolding write_bits write_bit after_write start_bit finish send_status is_over
  writing finished_ok e i = ground (arith)
  writing finished_error e i = ground (arith)
  writing read_pulse e i = ground (arith)
  writing wait_sample_event e i = ground (arith, late now s.t0 200 slow, late now s.t0 12800 slow)
  writing wait_slot_end e i = ground (arith, late now s.t0 20000 slow, h.writing e)

  searching :
      (io : BitIo)
      → s.state ≡ OwState.search
      → s.bit_io ≡ io
      → left_over (search now active s) ≤ left_over s - 1
  unfolding search after_search_read after_search_write read_bit write_bit start_bit finish
      send_status
  searching finished_ok e i = ground (arith)
  searching finished_error e i = ground (arith)
  searching read_pulse e i = ground (arith, late now s.t0 200 slow)
  searching wait_sample_event e i =
      ground (arith, late now s.t0 3000 slow, late now s.t0 200 slow, late now s.t0 12800 slow)
  searching wait_slot_end e i =
      let n = record s { bit_io = finished_ok; bitidx = s.bitidx + 1 } in
      ground (arith, late now s.t0 20000 slow, h.searching e, after_pair_rank n)

  checking :
      s.state ≡ init_wait_reset_pulse_falling_edge
      → left_over (wait_reset_pulse_check1 now active s) ≤ left_over s - 1
  unfolding wait_reset_pulse_check1
  checking e = ground (arith, late now s.t0 2000 slow)

  pulsing :
      s.state ≡ init_wait_reset_pulse_finished
      → left_over (wait_reset_pulse now s) ≤ left_over s - 1
  unfolding wait_reset_pulse
  pulsing e = ground (arith, late now s.t0 96000 slow)

  awaiting : s.state ≡ init_wait_presence → left_over (wait_presence_pulse now s) ≤ left_over s - 1
  unfolding wait_presence_pulse
  awaiting e = ground (arith, late now s.t0 108000 slow)

  clearing :
      s.state ≡ init_wait_presence_cleared
      → left_over (wait_presence_cleared now active s) ≤ left_over s - 1
  unfolding wait_presence_cleared finish_with_param send_status_with_param
  clearing e = ground (arith, late now s.t0 3000 slow, late now s.t0 48000 slow)

  recovering : s.state ≡ init_wait_recovery → left_over (wait_init_recovery now s) ≤ left_over s - 1
  unfolding wait_init_recovery finish_with_param send_status_with_param
  recovering e = ground (arith, late now s.t0 96000 slow)

  falling : (x : OwState) → s.state ≡ x → left_over (handler x now active s) ≤ left_over s - 1
  unfolding handler
  falling idle e = ground (arith)
  falling init_wait_reset_pulse_falling_edge e = checking e
  falling init_wait_reset_pulse_finished e = pulsing e
  falling init_wait_presence e = awaiting e
  falling init_wait_presence_cleared e = clearing e
  falling init_wait_recovery e = recovering e
  falling OwState.read_bits e = reading s.bit_io e refl
  falling OwState.write_bits e = writing s.bit_io e refl
  falling OwState.search e = searching s.bit_io e refl

  -- A call brings an operation nearer to its end.
  call_falls : left_over (ow_sm_do now active s) ≤ left_over s - 1
  unfolding ow_sm_do
  call_falls = falling s.state refl

-- Calls of `ow_sm_do`, each with the timer and whether the line is low.
abbrev pub run : List (ℕ × Bool) → Wire → Wire
run [] s = s
run ((now, active) ∷ ps) s = run ps (ow_sm_do now active s)

-- Each call comes more than 540 us after the time that the machine has kept.
abbrev pub IsSlow : List (ℕ × Bool) → Wire → Type 0
IsSlow [] s = Unit {0}
IsSlow ((now, active) ∷ ps) s =
    (dur_wait_presence < elapsed now s.t0) × IsSlow ps (ow_sm_do now active s)

run_falls :
    (ps : List (ℕ × Bool)) (s : Wire)
    → Inv s
    → IsSlow ps s
    → left_over (run ps s) ≤ left_over s - length ps
run_falls [] s h k = omega arith
run_falls ((now, active) ∷ ps) s h k = omega (
  arith,
  call_falls now active s (k.0) h,
  run_falls ps (ow_sm_do now active s) (ow_sm_do-Inv now active s h) (k.1),
)

io_rank_pos : (io : BitIo) → (1 ≤ io_rank io) × (io_rank io ≤ 4)
io_rank_pos finished_ok = omega arith
io_rank_pos finished_error = omega arith
io_rank_pos read_pulse = omega arith
io_rank_pos wait_sample_event = omega arith
io_rank_pos wait_slot_end = omega arith

run-Inv : (ps : List (ℕ × Bool)) (s : Wire) → Inv s → Inv (run ps s)
run-Inv [] s h = h
run-Inv ((now, active) ∷ ps) s h = run-Inv ps (ow_sm_do now active s) (ow_sm_do-Inv now active s h)

rank_bound : (s : Wire) (x : OwState) → s.state ≡ x → Inv s → left_over s ≤ 384
rank_bound s idle e h = ground (arith)
rank_bound s init_wait_reset_pulse_falling_edge e h = ground (arith)
rank_bound s init_wait_reset_pulse_finished e h = ground (arith)
rank_bound s init_wait_presence e h = ground (arith)
rank_bound s init_wait_presence_cleared e h = ground (arith)
rank_bound s init_wait_recovery e h = ground (arith)
rank_bound s OwState.read_bits e h = ground (arith, h.reading e, io_rank_pos s.bit_io)
rank_bound s OwState.write_bits e h = ground (arith, h.writing e, io_rank_pos s.bit_io)
rank_bound s OwState.search e h = ground (arith, h.searching e, io_rank_pos s.bit_io)

rank_zero : (s : Wire) (x : OwState) → s.state ≡ x → left_over s ≤ 0 → s.state ≡ idle
rank_zero s idle e k = e
rank_zero s init_wait_reset_pulse_falling_edge e k = absurd (ground (arith))
rank_zero s init_wait_reset_pulse_finished e k = absurd (ground (arith))
rank_zero s init_wait_presence e k = absurd (ground (arith))
rank_zero s init_wait_presence_cleared e k = absurd (ground (arith))
rank_zero s init_wait_recovery e k = absurd (ground (arith))
rank_zero s OwState.read_bits e k = absurd (ground (arith, io_rank_pos s.bit_io))
rank_zero s OwState.write_bits e k = absurd (ground (arith, io_rank_pos s.bit_io))
rank_zero s OwState.search e k = absurd (ground (arith, io_rank_pos s.bit_io))

-- From every state that the real-time unit can reach (its messages coming when no 1-wire operation is
-- running), 384 calls of `ow_sm_do`, four for each of 96 bits, each more than 540 us after the time that
-- the machine has kept, bring the master back to idle, whatever the line shows.
pub run-settles :
    {s : Pru} (ps : List (ℕ × Bool))
    → Reach s
    → IsSlow ps s.ow
    → 384 ≤ length ps
    → (run ps s.ow).state ≡ idle
run-settles {s} ps r slow n =
    let h = Reach-Inv r in
    rank_zero (run ps s.ow) (run ps s.ow).state refl
      (omega (arith, run_falls ps s.ow h slow, rank_bound s.ow s.ow.state refl h))
