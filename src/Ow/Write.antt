-- ===== src/Ow/Write.antt =====
-- Writing bits to the 1-wire bus: the waveform at the pin, and the strong power after it.
use byt.Base.{
  ℕ, zero, suc, ◌+◌, ◌/◌, ◌%◌, ◌≤◌, ◌≡◌, refl, sym, ap, ap₂, ◌∙◌, Bool, true, false, ◌&&◌, List, [],
  ◌∷◌, length, get_or, ltb, leb, ◌==◌, if◌then◌else◌, has_bits-pow, Bool-cases, inl, inr, arith,
}
use byt.Ow.Bus.{
  idle, writing_bits, finished_ok, write_bits_ok, busy, Ow, Act, pull, release, power, timer_off,
  wait, schedule_timeout, bus_pull, bitval, set_state_idle, response, StrongPower, power0,
  power_req, keep_after_write, dur_write0_pulse, dur_write0_relax, dur_write1_relax,
}
use byt.Ow.Ops.{
  run, write_bits, ow_sm_do, ow_sm_in, after_write_bit, next_bit, arm_strong_power, start_write_bit,
  bus_releasy_after_write, all_ops, arm_timer, is_keep,
}
use byt.Ow.Read.{buf_bit}

-- The state after the slot of the bit at the index, before the machine looks for a next one.
slot_end_one : Ow → Ow
slot_end_one s = record (schedule_timeout dur_write1_relax (bus_releasy_after_write (bus_pull s))) {
  bit_io_state = finished_ok;
}

slot_end_zero : Ow → Ow
slot_end_zero s =
    record (bus_releasy_after_write
      (schedule_timeout dur_write0_relax (schedule_timeout dur_write0_pulse (bus_pull s)))) {
        bit_io_state = finished_ok;
      }

-- A bit 1 takes one timer interrupt, a bit 0 two.
write_one :
    (a : Bool) (s : Ow)
    → s.state ≡ writing_bits
    → bitval s ≡ true
    → ow_sm_do a (start_write_bit s) ≡ after_write_bit finished_ok (slot_end_one s)
unfolding ow_sm_do ow_sm_in all_ops slot_end_one
write_one a s e one = ground arith

write_zero :
    (a b : Bool) (s : Ow)
    → s.state ≡ writing_bits
    → bitval s ≡ false
    → ow_sm_do b (ow_sm_do a (start_write_bit s)) ≡ after_write_bit finished_ok (slot_end_zero s)
unfolding ow_sm_do ow_sm_in all_ops slot_end_zero
write_zero a b s e z = ground arith

slot_end : Ow → Ow
slot_end s = if bitval s then slot_end_one s else slot_end_zero s

abbrev slot_ticks : Bool → ℕ
slot_ticks true = 1
slot_ticks false = 2

-- Enough interrupts end the slot, and the rest of them goes on from there.
run_slot :
    (bus : List Bool) (m : ℕ) (s : Ow)
    → s.state ≡ writing_bits
    → length bus ≡ slot_ticks (bitval s) + m
    → (rest : List Bool) × (length rest ≡ m)
      × (run bus (start_write_bit s) ≡ run rest (after_write_bit finished_ok (slot_end s)))
unfolding run slot_end
run_slot bus m s e n = elim (Bool-cases (bitval s)) [
  | inl one ↦ rw one (by_one bus one (rw one at n))
  | inr z ↦ rw z (by_zero bus z (rw z at n))
]
  where
    by_one :
        (bus : List Bool)
        → bitval s ≡ true
        → length bus ≡ 1 + m
        → (rest : List Bool) × (length rest ≡ m)
          × (run bus (start_write_bit s) ≡ run rest (after_write_bit finished_ok (slot_end_one s)))
    by_one [] one n = absurd (omega arith)
    by_one (a ∷ rest) one n = (rest, omega arith, ap (run rest) (write_one a s e one))

    by_zero :
        (bus : List Bool)
        → bitval s ≡ false
        → length bus ≡ 2 + m
        → (rest : List Bool) × (length rest ≡ m)
          × (run bus (start_write_bit s) ≡ run rest (after_write_bit finished_ok (slot_end_zero s)))
    by_zero [] z n = absurd (omega arith)
    by_zero (a ∷ []) z n = absurd (omega arith)
    by_zero (a ∷ b ∷ rest) z n = (rest, omega arith, ap (run rest) (write_zero a b s e z))

abbrev let_go : Bool → Act
let_go true = power
let_go false = release

-- The waveform of one bit, newest first: a short pulse or a long one, and then the line is let go,
-- or powered.
abbrev pub bit_wave : Bool → Bool → List Act → List Act
bit_wave true powered before = wait 80 ∷ let_go powered ∷ pull ∷ before
bit_wave false powered before = let_go powered ∷ wait 20 ∷ wait 60 ∷ pull ∷ before

-- The waveform of some bits of the buffer from an index on: the last bit ends in strong power
-- if that is asked for and it is not the first one too.
abbrev pub wave : Bool → List ℕ → ℕ → ℕ → List Act → List Act
wave strong buffer i zero before = before
wave strong buffer i (suc k) before =
    wave strong buffer (i + 1) k
      (bit_wave (buf_bit buffer i == 1) (strong && (k == 0 && ltb 0 i)) before)

abbrev pub ticks_of : List ℕ → ℕ → ℕ → ℕ
ticks_of buffer i zero = 0
ticks_of buffer i (suc k) = slot_ticks (buf_bit buffer i == 1) + ticks_of buffer (i + 1) k

abbrev request : Bool → ℕ → ℕ → StrongPower
request strong i k =
    if strong && (k == 0 && ltb 0 i) then keep_after_write else if strong then power_req else power0

-- A slot is about to begin, with `k` bits after it.
record Before (strong : Bool) (k : ℕ) (s : Ow) : Type 0 where
  writes : s.state ≡ writing_bits
  left : s.bitidx + suc k ≡ s.bits_count
  fits : s.bits_count ≤ 96
  asked : s.strong_power_request ≡ request strong s.bitidx k

bitval_lem : (s : Ow) → bitval s ≡ (buf_bit s.ow_data s.bitidx == 1)
unfolding bitval
bitval_lem s = has_bits-pow (get_or s.ow_data (s.bitidx / 8) 0) (s.bitidx % 8) (omega arith)

-- What a slot leaves behind.
record After (p : Bool) (s t : Ow) : Type 0 where
  same_state : t.state ≡ s.state
  same_idx : t.bitidx ≡ s.bitidx
  same_count : t.bits_count ≡ s.bits_count
  same_data : t.ow_data ≡ s.ow_data
  waved : t.trace ≡ bit_wave (bitval s) p s.trace
  line : t.ddra ≡ p
  level : t.porta ≡ p
  request_left : t.strong_power_request ≡ (if p then power0 else s.strong_power_request)

slot_end-After : (s : Ow) (p : Bool) → is_keep s.strong_power_request ≡ p → After p s (slot_end s)
unfolding slot_end slot_end_one slot_end_zero bus_releasy_after_write schedule_timeout bus_pull
slot_end-After s p e = ground arith

-- The state in which the machine starts the next slot.
following : Ow → Ow
following s = arm_strong_power (next_bit (slot_end s))

following_fields :
    (strong : Bool) (k : ℕ) (s : Ow)
    → Before strong (suc k) s
    → Before strong k (following s)
      × ((following s).ow_data ≡ s.ow_data)
      × ((following s).bitidx ≡ s.bitidx + 1)
      × ((following s).bits_count ≡ s.bits_count)
      × ((following s).trace ≡ bit_wave (bitval s) false s.trace)
unfolding following arm_strong_power next_bit
following_fields strong k s v =
    ground (arith, v.left, v.fits, v.asked, slot_end-After s false (ground (arith, v.asked)))

more_follow :
    (k : ℕ) (strong : Bool) (s : Ow)
    → Before strong (suc k) s
    → after_write_bit finished_ok (slot_end s) ≡ start_write_bit (following s)
unfolding after_write_bit following next_bit
more_follow k strong s v =
    let f = slot_end-After s (is_keep s.strong_power_request) refl in
    let more : leb (slot_end s).bits_count (((slot_end s).bitidx + 1) % 256) ≡ false =
      ground (arith, f, v.left, v.fits) in
    rw more refl

last_ends :
    (strong : Bool) (s : Ow)
    → Before strong 0 s
    → after_write_bit finished_ok (slot_end s)
      ≡ set_state_idle (response write_bits_ok (next_bit (slot_end s)))
unfolding after_write_bit next_bit
last_ends strong s v =
    let f = slot_end-After s (is_keep s.strong_power_request) refl in
    let last : leb (slot_end s).bits_count (((slot_end s).bitidx + 1) % 256) ≡ true =
      ground (arith, f, v.left, v.fits) in
    rw last refl

-- How a transfer of bits ends.
record Written (strong : Bool) (k : ℕ) (s t : Ow) : Type 0 where
  done : t.state ≡ idle
  told : t.response_code ≡ write_bits_ok
  data_kept : t.ow_data ≡ s.ow_data
  wave_sent : t.trace ≡ timer_off ∷ wave strong s.ow_data s.bitidx (suc k) s.trace
  line_left : t.ddra ≡ (strong && ltb 1 s.bits_count)
  level_left : t.porta ≡ (strong && ltb 1 s.bits_count)

is_keep_last :
    (strong : Bool) (s : Ow)
    → Before strong 0 s
    → is_keep s.strong_power_request ≡ (strong && ltb 0 s.bitidx)
is_keep_last strong s v = ground (arith, v.asked)

last-Written :
    (strong : Bool) (s : Ow)
    → Before strong 0 s
    → Written strong 0 s (set_state_idle (response write_bits_ok (next_bit (slot_end s))))
unfolding set_state_idle response next_bit
last-Written strong s v =
    let f = slot_end-After s _ (is_keep_last strong s v) in
    record {
      done = refl;
      told = refl;
      data_kept = f.same_data;
      wave_sent = ap (λ t. timer_off ∷ t) (f.waved ∙ rw (bitval_lem s) refl);
      line_left = f.line ∙ ground (arith, v.left);
      level_left = f.level ∙ ground (arith, v.left);
    }

write_from :
    (k : ℕ) (strong : Bool) (bus : List Bool) (s : Ow)
    → Before strong k s
    → length bus ≡ ticks_of s.ow_data s.bitidx (suc k)
    → Written strong k s (run bus (start_write_bit s))
write_from zero strong bus s v n =
    let (rest, m, e) = run_slot bus 0 s v.writes (rw (bitval_lem s) n) in
    rw (e, last_ends strong s v) (go rest m)
  where
    go :
        (rest : List Bool)
        → length rest ≡ 0
        → Written strong 0 s
            (run rest (set_state_idle (response write_bits_ok (next_bit (slot_end s)))))
    go [] m = unfold run in last-Written strong s v
    go (a ∷ rest) m = absurd (omega arith)
write_from (suc k) strong bus s v n =
    let no_power : false ≡ (strong && (suc k == 0 && ltb 0 s.bitidx)) = ground arith in
    let (next, buffer, idx, count, tr) = following_fields strong k s v in
    let (rest, m, e) =
      run_slot bus (ticks_of s.ow_data (s.bitidx + 1) (suc k)) s v.writes (rw (bitval_lem s) n) in
    let ih =
      write_from k strong rest (following s) next
        (m ∙ ap₂ (λ d i. ticks_of d i (suc k)) (sym buffer) (sym idx)) in
    rw (e, more_follow k strong s v)
      (record {
        done = ih.done;
        told = ih.told;
        data_kept = ih.data_kept ∙ buffer;
        wave_sent =
            ih.wave_sent
            ∙ ap (λ t. timer_off ∷ t)
                (ap₂ (λ d i. wave strong d i (suc k) (following s).trace) buffer idx
                  ∙ ap (wave strong s.ow_data (s.bitidx + 1) (suc k))
                      (tr ∙ ap₂ (λ b p. bit_wave b p s.trace) (bitval_lem s) no_power));
        line_left = ih.line_left ∙ rw count refl;
        level_left = ih.level_left ∙ rw count refl;
      })

begun_slot : ℕ → Bool → Ow → Ow
begun_slot count strong s = arm_timer (record (response busy s) {
  bits_count = count;
  bitidx = 0;
  strong_power_request = if strong then power_req else power0;
  state = writing_bits;
})

begun_slot-Before :
    (k : ℕ) (strong : Bool) (s : Ow) → suc k ≤ 96 → Before strong k (begun_slot (suc k) strong s)
unfolding begun_slot arm_timer response
begun_slot-Before k strong s h = ground arith

write_bits-begun :
    (k : ℕ) (strong : Bool) (s : Ow)
    → s.state ≡ idle
    → write_bits k strong s ≡ start_write_bit (begun_slot k strong s)
unfolding write_bits begun_slot
write_bits-begun k strong s e = rw e refl

-- `write_bits` of some bits (96 at most) on an idle master: after one timer interrupt for each 1 and
-- two for each 0, whatever the bus shows, the master is idle with the response of a success, the
-- pin has carried the waveform of the bits of the buffer in order and the buffer is unchanged. The
-- line is left powered if strong power was asked for and there was more than one bit, and
-- released otherwise.
pub write_bits_lem :
    (s : Ow) (strong : Bool) (k : ℕ) (bus : List Bool)
    → s.state ≡ idle
    → suc k ≤ 96
    → length bus ≡ ticks_of s.ow_data 0 (suc k)
    → let t = run bus (write_bits (suc k) strong s) in
      let powered = strong && ltb 0 k in
      (t.state ≡ idle)
      × (t.response_code ≡ write_bits_ok)
      × (t.ow_data ≡ s.ow_data)
      × (t.trace ≡ timer_off ∷ wave strong s.ow_data 0 (suc k) s.trace)
      × (t.ddra ≡ powered)
      × (t.porta ≡ powered)
write_bits_lem s strong k bus e h n =
    let out =
      write_from k strong bus (begun_slot (suc k) strong s) (begun_slot-Before k strong s h)
        (unfold begun_slot arm_timer response in n) in
    unfold begun_slot arm_timer response in
    rw (write_bits-begun (suc k) strong s e) (
      out.done,
      out.told,
      out.data_kept,
      out.wave_sent,
      out.line_left ∙ ground arith,
      out.level_left ∙ ground arith,
    )
