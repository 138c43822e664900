-- ===== src/Ow/Progress.antt =====
-- Every operation of the 1-wire master ends, whatever the bus does.
use byt.Base.{
  ℕ, ◌+◌, ◌-◌, ◌*◌, ◌%◌, ◌≤◌, ◌<◌, ◌≡◌, ◌≢◌, ◌⊎◌, inl, inr, refl, ◌∙◌, Bool, true, leb, List, [],
  ◌∷◌, length, Bool-cases, ◌==◌, get_or, bit_and, arith,
}
use byt.Ow.Bus.{
  idle, init_wait_reset_pulse_finished, init_wait_presence, init_wait_presence_cleared,
  init_wait_recovery, reading_bits, writing_bits, searching, OwState, BitIoState, finished_ok,
  finished_error, wait_sample_event, wait_slot_end, Ow, response, set_state_idle,
}
use byt.Ow.Ops.{
  wait_reset_pulse, wait_presence_pulse, wait_presence_cleared, do_read_bits, do_write_bits,
  do_search, read_bit, write_bit, read_bit_in, write_bit_in, after_write_bit, after_read_bit,
  after_search_read, after_search_write, next_bit, arm_strong_power, set_bit2, ow_sm_in, ow_sm_do,
  run,
}
use byt.Ow.Invariant.{Inv, Started, max_one, start_read_bit-Started, start_write_bit-Started}
use byt.Ow.Safety.{ow_sm_do-Inv, Reach, Reach-Inv}

abbrev slot_done : BitIoState → ℕ
slot_done wait_slot_end = 1
slot_done _ = 0

-- The interrupts that an operation can still take.
abbrev pub remaining_in : OwState → Ow → ℕ
remaining_in idle s = 0
remaining_in init_wait_reset_pulse_finished s = 3
remaining_in init_wait_presence s = 2
remaining_in init_wait_presence_cleared s = 1
remaining_in init_wait_recovery s = 0
remaining_in reading_bits s = 2 * (max_one s.bits_count - s.bitidx) - slot_done s.bit_io_state
remaining_in writing_bits s = 2 * (max_one s.bits_count - s.bitidx) - slot_done s.bit_io_state
remaining_in searching s = 2 * (3 - s.bitidx) - slot_done s.bit_io_state

abbrev pub remaining : Ow → ℕ
remaining s = remaining_in s.state s

-- A slot begun at an index leaves two interrupts a bit at most.
Started-write :
    (s t : Ow)
    → Started s t
    → s.state ≡ writing_bits
    → remaining t ≤ 2 * (max_one s.bits_count - s.bitidx)
Started-write s t b e =
    let e' : t.state ≡ writing_bits = b.same_state ∙ e in
    rw (e', b.same_idx, b.same_count) (omega arith)

Started-read :
    (s t : Ow)
    → Started s t
    → s.state ≡ reading_bits
    → remaining t ≤ 2 * (max_one s.bits_count - s.bitidx)
Started-read s t b e =
    let e' : t.state ≡ reading_bits = b.same_state ∙ e in
    rw (e', b.same_idx, b.same_count) (omega arith)

Started-search : (s t : Ow) → Started s t → s.state ≡ searching → remaining t ≤ 2 * (3 - s.bitidx)
Started-search s t b e =
    let e' : t.state ≡ searching = b.same_state ∙ e in rw (e', b.same_idx) (omega arith)

arm_keeps :
    (s : Ow)
    → ((arm_strong_power s).state ≡ s.state)
      × ((arm_strong_power s).bitidx ≡ s.bitidx)
      × ((arm_strong_power s).bits_count ≡ s.bits_count)
unfolding arm_strong_power
arm_keeps s = (ground arith, ground arith, ground arith)

-- One slot is over: two interrupts fewer are left, of which the last has been taken.
fewer :
    (m i j c d : ℕ)
    → m ≤ 2 * (max_one c - j)
    → j ≡ (i + 1) % 256
    → c ≡ d
    → i < max_one d
    → d ≤ 96
    → m < 2 * (max_one d - i) - 1
fewer m i j c d h e same x fits = ground arith

abbrev IsInSlot : BitIoState → Type 0
IsInSlot io = (io ≡ wait_sample_event) ⊎ (io ≡ wait_slot_end)

write_falls :
    (io : BitIoState) (s : Ow)
    → s.state ≡ writing_bits
    → IsInSlot io
    → s.bitidx < max_one s.bits_count
    → s.bits_count ≤ 96
    → remaining (after_write_bit (write_bit_in io s).bit_io_state (write_bit_in io s))
      < 2 * (max_one s.bits_count - s.bitidx) - slot_done io
unfolding write_bit_in after_write_bit
write_falls wait_sample_event s e h x c = ground arith
write_falls wait_slot_end s e h x c = elim (Bool-cases (leb s.bits_count ((s.bitidx + 1) % 256))) [
  | inl last ↦ unfold next_bit set_state_idle response in rw last (omega arith)
  | inr more ↦
      let n : Ow = record s { bit_io_state = finished_ok; bitidx = (s.bitidx + 1) % 256 } in
      let kept = arm_keeps n in
      unfold next_bit in
      rw more (
        fewer _ s.bitidx _ _ s.bits_count
          (Started-write (arm_strong_power n) _ (start_write_bit-Started _) (kept.0 ∙ e)) kept.1
          kept.2 x c)
]
write_falls finished_ok s e h x c = absurd (ground arith)
write_falls finished_error s e h x c = absurd (ground arith)

read_falls :
    (io : BitIoState) (a : Bool) (s : Ow)
    → s.state ≡ reading_bits
    → IsInSlot io
    → s.bitidx < max_one s.bits_count
    → s.bits_count ≤ 96
    → remaining (after_read_bit (read_bit_in io a s).bit_io_state (read_bit_in io a s))
      < 2 * (max_one s.bits_count - s.bitidx) - slot_done io
unfolding read_bit_in after_read_bit
read_falls wait_sample_event a s e h x c = ground arith
read_falls wait_slot_end a s e h x c = elim (Bool-cases (leb s.bits_count ((s.bitidx + 1) % 256))) [
  | inl last ↦ unfold next_bit set_state_idle response in rw last (omega arith)
  | inr more ↦
      let n : Ow = record s { bit_io_state = finished_ok; bitidx = (s.bitidx + 1) % 256 } in
      unfold next_bit in
      rw more (
        fewer _ s.bitidx _ _ s.bits_count (Started-read n _ (start_read_bit-Started _) e) refl refl
          x c)
]
read_falls finished_ok a s e h x c = absurd (ground arith)
read_falls finished_error a s e h x c = absurd (ground arith)

search_read_falls :
    (io : BitIoState) (a : Bool) (s : Ow)
    → s.state ≡ searching
    → IsInSlot io
    → s.bitidx ≤ 1
    → remaining (after_search_read (read_bit_in io a s).bit_io_state (read_bit_in io a s))
      < 2 * (3 - s.bitidx) - slot_done io
unfolding read_bit_in after_search_read
search_read_falls wait_sample_event a s e h x = ground arith
search_read_falls wait_slot_end a s e h x = elim (Bool-cases ((s.bitidx + 1) % 256 == 2)) [
  | inl second ↦ elim (Bool-cases (bit_and (get_or s.ow_data 0 0) 3 == 3)) [
    | inl nobody ↦ unfold next_bit set_state_idle response in rw (second, nobody) (omega arith)
    | inr somebody ↦
        unfold next_bit set_bit2 in
        rw (second, somebody) (omega (arith, Started-search _ _ (start_write_bit-Started _) e))
  ]
  | inr first ↦
      let n : Ow = record s { bit_io_state = finished_ok; bitidx = (s.bitidx + 1) % 256 } in
      unfold next_bit in rw first (omega (arith, Started-search n _ (start_read_bit-Started _) e))
]
search_read_falls finished_ok a s e h x = absurd (ground arith)
search_read_falls finished_error a s e h x = absurd (ground arith)

search_write_falls :
    (io : BitIoState) (s : Ow)
    → s.state ≡ searching
    → IsInSlot io
    → s.bitidx ≡ 2
    → remaining (after_search_write (write_bit_in io s).bit_io_state (write_bit_in io s))
      < 2 * (3 - s.bitidx) - slot_done io
unfolding write_bit_in after_search_write response set_state_idle
search_write_falls wait_sample_event s e h x = ground arith
search_write_falls wait_slot_end s e h x = ground arith
search_write_falls finished_ok s e h x = absurd (ground arith)
search_write_falls finished_error s e h x = absurd (ground arith)

search_falls :
    (a : Bool) (s : Ow)
    → s.state ≡ searching
    → IsInSlot s.bit_io_state
    → s.bitidx ≤ 2
    → remaining (do_search a s) < 2 * (3 - s.bitidx) - slot_done s.bit_io_state
unfolding do_search read_bit write_bit
search_falls a s e h x = elim (Bool-cases (leb s.bitidx 1)) [
  | inl reads ↦ rw reads (search_read_falls s.bit_io_state a s e h (ground arith))
  | inr after ↦
      let two : s.bitidx ≡ 2 = ground arith in
      let is_two : (s.bitidx == 2) ≡ true = ground arith in
      rw (after, is_two) (search_write_falls s.bit_io_state s e h two)
]

-- A timer interrupt brings an operation closer to its end.
falls_in :
    (st : OwState) (a : Bool) (s : Ow)
    → Inv s
    → s.state ≡ st
    → st ≢ idle
    → remaining (ow_sm_in st a s) < remaining_in st s
unfolding ow_sm_in do_read_bits do_write_bits read_bit write_bit
falls_in idle a s v e h = absurd (h refl)
falls_in init_wait_reset_pulse_finished a s v e h = unfold wait_reset_pulse in ground arith
falls_in init_wait_presence a s v e h = unfold wait_presence_pulse in ground arith
falls_in init_wait_presence_cleared a s v e h = unfold wait_presence_cleared in ground arith
falls_in init_wait_recovery a s v e h = absurd (v.no_recovery e)
falls_in reading_bits a s v e h =
    let busy = v.in_transfer (inl e) in read_falls s.bit_io_state a s e busy.0 busy.1 v.count_fits
falls_in writing_bits a s v e h =
    let busy = v.in_transfer (inr e) in write_falls s.bit_io_state s e busy.0 busy.1 v.count_fits
falls_in searching a s v e h = let busy = v.in_search e in search_falls a s e busy.0 busy.1

OwState-discrete : Discrete OwState
OwState-discrete = hlevel

pub run_idle : (bus : List Bool) (s : Ow) → s.state ≡ idle → run bus s ≡ s
unfolding run ow_sm_do ow_sm_in
run_idle [] s e = refl
run_idle (a ∷ bus) s e =
    let stays : ow_sm_in s.state a s ≡ s = rw e refl in rw stays (run_idle bus s e)

none_left : (st : OwState) (s : Ow) → Inv s → s.state ≡ st → remaining_in st s ≤ 0 → st ≡ idle
none_left idle s v e h = refl
none_left init_wait_reset_pulse_finished s v e h = absurd (omega arith)
none_left init_wait_presence s v e h = absurd (omega arith)
none_left init_wait_presence_cleared s v e h = absurd (omega arith)
none_left init_wait_recovery s v e h = absurd (v.no_recovery e)
none_left reading_bits s v e h = absurd (ground (arith, v.in_transfer (inl e)))
none_left writing_bits s v e h = absurd (ground (arith, v.in_transfer (inr e)))
none_left searching s v e h = absurd (ground (arith, v.in_search e))

run-idle_of :
    (bus : List Bool) (s : Ow) → Inv s → remaining s ≤ length bus → (run bus s).state ≡ idle
unfolding run
run-idle_of [] s v h = none_left s.state s v refl h
run-idle_of (a ∷ bus) s v h = elim (OwState-discrete s.state idle) [
  | yes done ↦ unfold run in rw (run_idle (a ∷ bus) s done) done
  | no busy ↦
      run-idle_of bus (ow_sm_do a s) (ow_sm_do-Inv a s v)
        (unfold ow_sm_do in omega (arith, falls_in s.state a s v refl busy))
]

remaining_bound : (st : OwState) (s : Ow) → Inv s → remaining_in st s ≤ 192
remaining_bound idle s v = omega arith
remaining_bound init_wait_reset_pulse_finished s v = omega arith
remaining_bound init_wait_presence s v = omega arith
remaining_bound init_wait_presence_cleared s v = omega arith
remaining_bound init_wait_recovery s v = omega arith
remaining_bound reading_bits s v = ground (arith, v.count_fits)
remaining_bound writing_bits s v = ground (arith, v.count_fits)
remaining_bound searching s v = omega arith

-- From every state that can be reached from reset, 192 timer interrupts (two for each of 96 bits)
-- with any samples of the bus bring the master back to idle.
pub run-idle : {s : Ow} (bus : List Bool) → Reach s → 192 ≤ length bus → (run bus s).state ≡ idle
run-idle {s} bus r h =
    let v = Reach-Inv r in run-idle_of bus s v (omega (arith, remaining_bound s.state s v))
