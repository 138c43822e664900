-- ===== src/Ow/Safety.antt =====
-- Every command and every timer interrupt keeps the invariant of the 1-wire master, and what
-- follows for the accesses to its buffer.
use byt.Base.{
  ℕ, ◌+◌, ◌/◌, ◌%◌, ◌≤◌, ◌<◌, ◌≡◌, ◌≢◌, ◌⊎◌, inl, inr, refl, Bool, not, length, length-set, leb,
  ◌==◌, Bool-cases, get_or, bit_and, arith,
}
use byt.Ow.Bus.{
  read_bits_failure, write_bits_failure, rsp_error, idle, init_wait_reset_pulse_finished, busy,
  init_wait_presence, init_wait_presence_cleared, init_wait_recovery, reading_bits, writing_bits,
  searching, OwState, BitIoState, finished_ok, finished_error, wait_sample_event, wait_slot_end, Ow,
  response, set_state_idle, bus_release, schedule_timeout, bus_pull,
}
use byt.Ow.Ops.{
  do_read_bits, do_write_bits, do_search, read_bit, write_bit, read_bit_in, write_bit_in,
  after_write_bit, after_read_bit, after_search_read, after_search_write, start_read_bit, next_bit,
  set_bit2, search_result, store_direction, arm_timer, read_bits, write_bits, search, init,
  ow_sm_in, ow_sm_do, is_idle,
}
use byt.Ow.Invariant.{
  Inv, Started, Ended, boot, idle-Inv, begun-Inv, begun_search-Inv, after_write_bit-Inv,
  after_read_bit-Inv, start_read_bit-Started, start_write_bit-Started, wait_reset_pulse-Inv,
  wait_presence_pulse-Inv, wait_presence_cleared-Inv,
}

write_slot-Inv :
    (io : BitIoState) (s : Ow)
    → Inv s
    → s.state ≡ writing_bits
    → (io ≡ wait_sample_event) ⊎ (io ≡ wait_slot_end)
    → Inv (after_write_bit (write_bit_in io s).bit_io_state (write_bit_in io s))
unfolding write_bit_in
write_slot-Inv wait_sample_event s v e h =
    unfold after_write_bit in
    begun-Inv s (write_bit_in wait_sample_event s) (ground arith) (inr e) v.buffer v.count_fits
      (ground arith) (ground arith) v.no_failure
write_slot-Inv wait_slot_end s v e h =
    after_write_bit-Inv (record s { bit_io_state = finished_ok }) (ground arith)
      (v.in_transfer (inr e)).1 e
write_slot-Inv finished_ok s v e h = absurd (ground arith)
write_slot-Inv finished_error s v e h = absurd (ground arith)

do_write_bits-Inv : (s : Ow) → Inv s → s.state ≡ writing_bits → Inv (do_write_bits s)
unfolding do_write_bits write_bit
do_write_bits-Inv s v e = write_slot-Inv s.bit_io_state s v e (v.in_transfer (inr e)).0

read_slot-Started :
    (a : Bool) (s : Ow)
    → Inv s
    → Started
        (record s { ow_data = (read_bit_in wait_sample_event a s).ow_data })
        (read_bit_in wait_sample_event a s)
unfolding read_bit_in
read_slot-Started a s v = ground arith

read_slot-length :
    (a : Bool) (s : Ow) → length (read_bit_in wait_sample_event a s).ow_data ≡ length s.ow_data
unfolding read_bit_in
read_slot-length a s = length-set s.ow_data (s.bitidx / 8) _

read_slot-Inv :
    (io : BitIoState) (a : Bool) (s : Ow)
    → Inv s
    → s.state ≡ reading_bits
    → (io ≡ wait_sample_event) ⊎ (io ≡ wait_slot_end)
    → Inv (after_read_bit (read_bit_in io a s).bit_io_state (read_bit_in io a s))
read_slot-Inv wait_sample_event a s v e h =
    unfold after_read_bit read_bit_in in
    begun-Inv _ (read_bit_in wait_sample_event a s) (read_slot-Started a s v) (inl e)
      (rw (read_slot-length a s) v.buffer) v.count_fits (ground arith) (ground arith) v.no_failure
read_slot-Inv wait_slot_end a s v e h =
    unfold read_bit_in in
    after_read_bit-Inv (record s { bit_io_state = finished_ok }) (ground arith)
      (v.in_transfer (inl e)).1 e
read_slot-Inv finished_ok a s v e h = absurd (ground arith)
read_slot-Inv finished_error a s v e h = absurd (ground arith)

do_read_bits-Inv : (a : Bool) (s : Ow) → Inv s → s.state ≡ reading_bits → Inv (do_read_bits a s)
unfolding do_read_bits read_bit
do_read_bits-Inv a s v e = read_slot-Inv s.bit_io_state a s v e (v.in_transfer (inl e)).0

after_search_read-Inv :
    (s : Ow) → Ended s → s.state ≡ searching → s.bitidx ≤ 1 → Inv (after_search_read finished_ok s)
unfolding after_search_read response set_state_idle next_bit set_bit2
after_search_read-Inv s v e h = elim (Bool-cases ((s.bitidx + 1) % 256 == 2)) [
  | inl second ↦ rw second (elim (Bool-cases (bit_and (get_or s.ow_data 0 0) 3 == 3)) [
    | inl none_there ↦ rw none_there (idle-Inv _ v.end_buffer v.end_count refl refl (ground arith))
    | inr some_there ↦ rw some_there (
        begun_search-Inv _ _ (start_write_bit-Started _) e
          (rw (length-set s.ow_data 0) v.end_buffer) v.end_count v.end_irq (ground arith) v.end_ok)
  ])
  | inr first ↦ rw first (
      begun_search-Inv (next_bit s) _ (start_read_bit-Started _) e v.end_buffer v.end_count
        v.end_irq (ground arith) v.end_ok)
]

after_search_write-Inv : (s : Ow) → Ended s → Inv (after_search_write finished_ok s)
unfolding after_search_write response set_state_idle search_result
after_search_write-Inv s v = idle-Inv _ v.end_buffer v.end_count refl refl (ground arith)

search_read-Inv :
    (io : BitIoState) (a : Bool) (s : Ow)
    → Inv s
    → s.state ≡ searching
    → s.bitidx ≤ 1
    → (io ≡ wait_sample_event) ⊎ (io ≡ wait_slot_end)
    → Inv (after_search_read (read_bit_in io a s).bit_io_state (read_bit_in io a s))
search_read-Inv wait_sample_event a s v e x h =
    unfold after_search_read read_bit_in in
    begun_search-Inv _ (read_bit_in wait_sample_event a s) (read_slot-Started a s v) e
      (rw (read_slot-length a s) v.buffer) v.count_fits (ground arith) (ground arith) v.no_failure
search_read-Inv wait_slot_end a s v e x h =
    unfold read_bit_in in
    after_search_read-Inv (record s { bit_io_state = finished_ok }) (ground arith) e x
search_read-Inv finished_ok a s v e x h = absurd (ground arith)
search_read-Inv finished_error a s v e x h = absurd (ground arith)

search_write-Inv :
    (io : BitIoState) (s : Ow)
    → Inv s
    → s.state ≡ searching
    → (io ≡ wait_sample_event) ⊎ (io ≡ wait_slot_end)
    → Inv (after_search_write (write_bit_in io s).bit_io_state (write_bit_in io s))
unfolding write_bit_in
search_write-Inv wait_sample_event s v e h =
    unfold after_search_write in
    begun_search-Inv s (write_bit_in wait_sample_event s) (ground arith) e v.buffer v.count_fits
      (ground arith) (ground arith) v.no_failure
search_write-Inv wait_slot_end s v e h =
    after_search_write-Inv (record s { bit_io_state = finished_ok }) (ground arith)
search_write-Inv finished_ok s v e h = absurd (ground arith)
search_write-Inv finished_error s v e h = absurd (ground arith)

do_search-Inv : (a : Bool) (s : Ow) → Inv s → s.state ≡ searching → Inv (do_search a s)
unfolding do_search read_bit write_bit
do_search-Inv a s v e = elim (Bool-cases (leb s.bitidx 1)) [
  | inl reads ↦ rw reads (search_read-Inv s.bit_io_state a s v e (ground arith) (v.in_search e).0)
  | inr after ↦ rw after (elim (Bool-cases (s.bitidx == 2)) [
    | inl writes ↦ rw writes (search_write-Inv s.bit_io_state s v e (v.in_search e).0)
    | inr over ↦ rw over v
  ])
]

ow_sm_in-Inv : (st : OwState) (a : Bool) (s : Ow) → Inv s → s.state ≡ st → Inv (ow_sm_in st a s)
unfolding ow_sm_in
ow_sm_in-Inv idle a s v e = v
ow_sm_in-Inv init_wait_reset_pulse_finished a s v e = wait_reset_pulse-Inv a s v e
ow_sm_in-Inv init_wait_presence a s v e = wait_presence_pulse-Inv a s v e
ow_sm_in-Inv init_wait_presence_cleared a s v e = wait_presence_cleared-Inv a s v e
ow_sm_in-Inv init_wait_recovery a s v e = v
ow_sm_in-Inv reading_bits a s v e = do_read_bits-Inv a s v e
ow_sm_in-Inv writing_bits a s v e = do_write_bits-Inv s v e
ow_sm_in-Inv searching a s v e = do_search-Inv a s v e

pub ow_sm_do-Inv : (a : Bool) (s : Ow) → Inv s → Inv (ow_sm_do a s)
unfolding ow_sm_do
ow_sm_do-Inv a s v = ow_sm_in-Inv s.state a s v refl

response_error-Inv : (s : Ow) → Inv s → Inv (response rsp_error s)
unfolding response
response_error-Inv s v = ground arith

begin_read-Inv :
    (n : ℕ) (s : Ow)
    → n ≤ 96
    → Inv s
    → Inv (
        start_read_bit (
          arm_timer
            (record (response busy s) { bits_count = n; bitidx = 0; state = reading_bits })))
unfolding response arm_timer
begin_read-Inv n s h v =
    begun-Inv _ _ (start_read_bit-Started _) (inl refl) v.buffer h refl (ground arith)
      (ground arith)

pub read_bits-Inv : (n : ℕ) (s : Ow) → n ≤ 96 → Inv s → Inv (read_bits n s)
unfolding read_bits
read_bits-Inv n s h v = ground (arith, begin_read-Inv n s h v, response_error-Inv s v)

pub write_bits-Inv : (n : ℕ) (p : Bool) (s : Ow) → n ≤ 96 → Inv s → Inv (write_bits n p s)
unfolding write_bits response arm_timer
write_bits-Inv n p s h v = elim (Bool-cases (not (is_idle s.state))) [
  | inl taken ↦ rw taken (response_error-Inv s v)
  | inr free ↦ rw free (
      begun-Inv _ _ (start_write_bit-Started _) (inr refl) v.buffer h refl (ground arith)
        (ground arith))
]

pub search-Inv : (d : Bool) (s : Ow) → Inv s → Inv (search d s)
unfolding search response arm_timer store_direction
search-Inv d s v = elim (Bool-cases (not (is_idle s.state))) [
  | inl taken ↦ rw taken (response_error-Inv s v)
  | inr free ↦ rw free (
      begun_search-Inv _ _ (start_read_bit-Started _) refl (rw (length-set s.ow_data 1) v.buffer)
        v.count_fits refl (ground arith) (ground arith))
]

pub init-Inv : (a : Bool) (s : Ow) → Inv s → Inv (init a s)
unfolding init response arm_timer schedule_timeout bus_pull bus_release
init-Inv a s v = ground arith

-- One step of the firmware: a command, with a count that its callers allow, or a timer interrupt.
pub data Step (s : Ow) : Ow → Type 0 where
  interrupt : (active : Bool) → Step s (ow_sm_do active s)
  reads : (count : ℕ) → count ≤ 96 → Step s (read_bits count s)
  writes : (count : ℕ) (strong : Bool) → count ≤ 96 → Step s (write_bits count strong s)
  searches : (direction : Bool) → Step s (search direction s)
  inits : (active : Bool) → Step s (init active s)

-- What the firmware can reach from reset.
pub data Reach : Ow → Type 0 where
  start : Reach boot
  next : {s t : Ow} → Reach s → Step s t → Reach t

pub boot-Inv : Inv boot
boot-Inv = ground arith

Step-Inv : {s t : Ow} → Step s t → Inv s → Inv t
Step-Inv {s} (interrupt a) v = ow_sm_do-Inv a s v
Step-Inv {s} (reads n h) v = read_bits-Inv n s h v
Step-Inv {s} (writes n p h) v = write_bits-Inv n p s h v
Step-Inv {s} (searches d) v = search-Inv d s v
Step-Inv {s} (inits a) v = init-Inv a s v

pub Reach-Inv : {s : Ow} → Reach s → Inv s
Reach-Inv start = boot-Inv
Reach-Inv (next r st) = Step-Inv st (Reach-Inv r)

abbrev pub IsBusy : Ow → Type 0
IsBusy s = (s.state ≡ reading_bits) ⊎ ((s.state ≡ writing_bits) ⊎ (s.state ≡ searching))

-- In every state that commands (with counts of at most 96 bits) and timer interrupts can reach
-- from reset, the index of the bit on the wire stands inside the buffer of 12 bytes.
pub Reach-in_bounds : {s : Ow} → Reach s → IsBusy s → s.bitidx / 8 < length s.ow_data
Reach-in_bounds {s} r (inl e) =
    let v : Inv s = Reach-Inv r in ground (arith, v.in_transfer (inl e), v.buffer, v.count_fits)
Reach-in_bounds {s} r (inr (inl e)) =
    let v : Inv s = Reach-Inv r in ground (arith, v.in_transfer (inr e), v.buffer, v.count_fits)
Reach-in_bounds {s} r (inr (inr e)) =
    let v : Inv s = Reach-Inv r in ground (arith, v.in_search e, v.buffer)

-- In no state that commands (with counts of at most 96 bits) and timer interrupts can reach from
-- reset has a failure of the bit machine been reported.
pub Reach-no_failure :
    {s : Ow}
    → Reach s
    → (s.response_code ≢ read_bits_failure) × (s.response_code ≢ write_bits_failure)
Reach-no_failure {s} r = let v : Inv s = Reach-Inv r in v.no_failure

-- In every state that can be reached from reset and is not idle, the timer runs with its interrupt
-- enabled: an operation under way always gets its next interrupt.
pub Reach-timer_runs : {s : Ow} → Reach s → s.state ≢ idle → (0 < s.tccr0a) × (s.timsk0 ≡ 1)
Reach-timer_runs {s} r h = let v : Inv s = Reach-Inv r in v.timer_on h
