-- ===== src/Ow/Read.antt =====
-- Reading bits from the 1-wire bus: what ends up in the buffer.
use byt.Base.{
  ℕ, zero, suc, ◌+◌, ◌-◌, ◌/◌, ◌%◌, ◌^◌, ◌≤◌, ◌<◌, ◌≡◌, refl, sym, ap, ◌∙◌, Bool, true, false, not,
  ◌&&◌, List, [], ◌∷◌, length, length-set, get_or, get_or-set_self, get_or-set_ne, to_nat, ltb, leb,
  ◌==◌, if◌then◌else◌, bit_at, set_bits, clear_bits, bit_at-set_bits, bit_at-clear_bits, Bool-cases,
  ==_iff, inl, inr, arith,
}
use native.Mathlib.Nat.{sub-zero}
use byt.Ow.Bus.{
  idle, reading_bits, finished_ok, wait_sample_event, wait_slot_end, read_bits_ok, Ow, sample,
  schedule_timeout, dur_slot, set_state_idle, response,
}
use byt.Ow.Ops.{
  run, read_bits, ow_sm_do, ow_sm_in, read_bit_in, after_read_bit, next_bit, start_read_bit,
  all_ops,
}

-- Bit `j` of the buffer, lowest bit of each byte first.
abbrev pub buf_bit : List ℕ → ℕ → ℕ
buf_bit buffer j = bit_at (get_or buffer (j / 8) 0) (j % 8)

-- Writing a bit of the buffer changes that bit alone.
pub buf_bit-sample :
    (v : Bool) (s : Ow) (j : ℕ)
    → length s.ow_data ≡ 12
    → s.bitidx < 96
    → buf_bit (sample v s).ow_data j ≡ (if s.bitidx == j then to_nat v else buf_bit s.ow_data j)
unfolding sample
buf_bit-sample v s j len fits = elim (Bool-cases (s.bitidx / 8 == j / 8)) [
  | inl same ↦
      let e : s.bitidx / 8 ≡ j / 8 = (==_iff _ _).0 same in
      rw (sym e, get_or-set_self s.ow_data (s.bitidx / 8) _ 0 (omega arith)) (go v e)
  | inr other ↦
      rw (get_or-set_ne s.ow_data (s.bitidx / 8) (j / 8) _ 0 (λ e. ground arith)) (ground arith)
]
  where
    go :
        (v : Bool)
        → s.bitidx / 8 ≡ j / 8
        → bit_at
            (if v
              then set_bits (get_or s.ow_data (s.bitidx / 8) 0) (2 ^ (s.bitidx % 8))
              else clear_bits (get_or s.ow_data (s.bitidx / 8) 0) (2 ^ (s.bitidx % 8)))
            (j % 8)
          ≡ (if s.bitidx == j then to_nat v else bit_at (get_or s.ow_data (s.bitidx / 8) 0) (j % 8))
    go true e =
        ground (arith, bit_at-set_bits (get_or s.ow_data (s.bitidx / 8) 0) (s.bitidx % 8) (j % 8))
    go false e = ground (
      arith,
      bit_at-clear_bits (get_or s.ow_data (s.bitidx / 8) 0) (s.bitidx % 8) (j % 8) (omega arith)
          (omega arith),
    )

-- What the bus shows in each slot: at the sample, and at the end of the slot.
abbrev pub slots : List (Bool × Bool) → List Bool
slots [] = []
slots ((a, b) ∷ rest) = a ∷ b ∷ slots rest

-- A slot is about to be sampled.
pub record Sampling (s : Ow) : Type 0 where
  pub reads : s.state ≡ reading_bits
  pub before : s.bit_io_state ≡ wait_sample_event
  pub released : s.ddra ≡ false
  pub buffer : length s.ow_data ≡ 12

-- The two interrupts of a slot.
tick_sample :
    (a : Bool) (s : Ow)
    → Sampling s
    → ow_sm_do a s
      ≡ schedule_timeout dur_slot (record (sample (not a) s) { bit_io_state = wait_slot_end })
unfolding all_ops
tick_sample a s v = rw (v.reads, ow_sm_in) (rw (v.before, read_bit_in) refl)

tick_end :
    (b : Bool) (s : Ow)
    → s.state ≡ reading_bits
    → s.bit_io_state ≡ wait_slot_end
    → ow_sm_do b s ≡ after_read_bit finished_ok (record s { bit_io_state = finished_ok })
unfolding all_ops
tick_end b s e io = rw (e, ow_sm_in) (rw (io, read_bit_in) refl)

-- A slot of the transfer, from sample to end.
slot_lem :
    (a b : Bool) (s : Ow)
    → Sampling s
    → ow_sm_do b (ow_sm_do a s)
      ≡ after_read_bit finished_ok
          (record (schedule_timeout dur_slot (sample (not a) s)) { bit_io_state = finished_ok })
unfolding schedule_timeout sample
slot_lem a b s v = rw (tick_sample a s v) (tick_end b _ v.reads refl)

abbrev pub sample_at : List (Bool × Bool) → ℕ → Bool
sample_at [] j = false
sample_at ((a, b) ∷ rest) zero = a
sample_at ((a, b) ∷ rest) (suc j) = sample_at rest j

sample_at-here :
    (a b : Bool) (rest : List (Bool × Bool)) (i j : ℕ)
    → i ≡ j
    → sample_at ((a, b) ∷ rest) (j - i) ≡ a
sample_at-here a b rest i j e = let z : j - i ≡ 0 = omega arith in rw z

sample_at-later :
    (a b : Bool) (rest : List (Bool × Bool)) (i j : ℕ)
    → i < j
    → i < 96
    → sample_at ((a, b) ∷ rest) (j - i) ≡ sample_at rest (j - (i + 1) % 256)
sample_at-later a b rest i j h fits = let e : j - i ≡ suc (j - (i + 1) % 256) = omega arith in rw e

-- What bit `j` of the buffer shows of a transfer into the bits from `i` to `n`.
abbrev received : List (Bool × Bool) → ℕ → ℕ → List ℕ → ℕ → ℕ
received bus i n buffer j =
    if leb i j && ltb j n then to_nat (not (sample_at bus (j - i))) else buf_bit buffer j

received_step :
    (a b : Bool) (rest : List (Bool × Bool)) (i n j : ℕ) (old new : List ℕ)
    → i + 1 < n
    → n ≤ 96
    → buf_bit new j ≡ (if i == j then to_nat (not a) else buf_bit old j)
    → received rest ((i + 1) % 256) n new j ≡ received ((a, b) ∷ rest) i n old j
received_step a b rest i n j old new more fits e = elim (Bool-cases (ltb i j)) [
  | inl later ↦ rw (sample_at-later a b rest i j (ground arith) (omega arith)) (ground arith)
  | inr before ↦ ground (arith, sample_at-here a b rest i j)
]

-- The state in which the next slot begins.
after_slot : Bool → Ow → Ow
after_slot a s = start_read_bit (
    next_bit (record (schedule_timeout dur_slot (sample (not a) s)) { bit_io_state = finished_ok }))

run_more :
    (a b : Bool) (rest : List (Bool × Bool)) (s : Ow)
    → Sampling s
    → leb s.bits_count ((s.bitidx + 1) % 256) ≡ false
    → run (slots ((a, b) ∷ rest)) s ≡ run (slots rest) (after_slot a s)
unfolding run after_read_bit next_bit schedule_timeout sample after_slot
run_more a b rest s v more = ap (run (slots rest)) (slot_lem a b s v ∙ rw more refl)

after_slot-Sampling : (a : Bool) (s : Ow) → Sampling s → Sampling (after_slot a s)
unfolding after_slot start_read_bit next_bit schedule_timeout sample
after_slot-Sampling a s v = record {
  reads = v.reads;
  before = refl;
  released = refl;
  buffer = length-set s.ow_data (s.bitidx / 8) _ ∙ v.buffer;
}

after_slot_fields :
    (a : Bool) (s : Ow)
    → ((after_slot a s).bitidx ≡ (s.bitidx + 1) % 256)
      × ((after_slot a s).bits_count ≡ s.bits_count)
      × ((after_slot a s).ow_data ≡ (sample (not a) s).ow_data)
unfolding after_slot start_read_bit next_bit schedule_timeout sample
after_slot_fields a s = (refl, refl, refl)

-- The transfer from the bit at the index on.
read_from :
    (a b : Bool) (rest : List (Bool × Bool)) (s : Ow) (j : ℕ)
    → Sampling s
    → s.bitidx + suc (length rest) ≡ s.bits_count
    → s.bits_count ≤ 96
    → let t = run (slots ((a, b) ∷ rest)) s in
      (t.state ≡ idle)
      × (t.response_code ≡ read_bits_ok)
      × (t.ddra ≡ false)
      × (buf_bit t.ow_data j ≡ received ((a, b) ∷ rest) s.bitidx s.bits_count s.ow_data j)
read_from a b [] s j v n fits =
    unfold run in
    rw (slot_lem a b s v) (
      let last : leb s.bits_count ((s.bitidx + 1) % 256) ≡ true = ground arith in
      unfold after_read_bit next_bit set_state_idle response schedule_timeout sample in
      rw last (
        refl,
        refl,
        v.released,
        buf_bit-sample (not a) s j v.buffer (omega arith)
            ∙ ground (arith, sample_at-here a b [] s.bitidx j),
      ))
read_from a b ((c, d) ∷ rest) s j v n fits =
    let more : leb s.bits_count ((s.bitidx + 1) % 256) ≡ false = ground arith in
    let f = after_slot_fields a s in
    let ih =
      read_from c d rest (after_slot a s) j (after_slot-Sampling a s v) (omega (arith, f.0, f.1))
        (rw f.1 fits) in
    rw (run_more a b ((c, d) ∷ rest) s v more) (
      ih.0,
      ih.1,
      ih.2,
      ih.3
          ∙ (received_fields
              ∙ received_step a b ((c, d) ∷ rest) s.bitidx s.bits_count j s.ow_data _ (omega arith)
                  fits (buf_bit-sample (not a) s j v.buffer (omega arith))),
    )
  where
    received_fields :
        received
          ((c, d) ∷ rest)
          (after_slot a s).bitidx
          (after_slot a s).bits_count
          (after_slot a s).ow_data
          j
        ≡ received ((c, d) ∷ rest) ((s.bitidx + 1) % 256) s.bits_count (sample (not a) s).ow_data j
    received_fields = let f = after_slot_fields a s in rw (f.0, f.1, f.2)

read_bits-Sampling :
    (n : ℕ) (s : Ow) → s.state ≡ idle → length s.ow_data ≡ 12 → Sampling (read_bits n s)
unfolding all_ops
read_bits-Sampling n s e len =
    rw (e, read_bits) (record { reads = refl; before = refl; released = refl; buffer = len })

read_bits-fields :
    (n : ℕ) (s : Ow)
    → s.state ≡ idle
    → ((read_bits n s).bitidx ≡ 0)
      × ((read_bits n s).bits_count ≡ n)
      × ((read_bits n s).ow_data ≡ s.ow_data)
unfolding all_ops
read_bits-fields n s e = rw (e, read_bits) (refl, refl, refl)

-- `read_bits` of some bits (96 at most) on an idle master: after two timer interrupts a bit, the
-- master is idle with the response of a success and the line released, the first bits of the
-- buffer are the samples in order (a low line reads as 0), and the other bits of the buffer are as
-- they were.
pub read_bits_lem :
    (s : Ow) (a b : Bool) (rest : List (Bool × Bool)) (j : ℕ)
    → s.state ≡ idle
    → length s.ow_data ≡ 12
    → suc (length rest) ≤ 96
    → let bus = (a, b) ∷ rest in
      let t = run (slots bus) (read_bits (suc (length rest)) s) in
      (t.state ≡ idle)
      × (t.response_code ≡ read_bits_ok)
      × (t.ddra ≡ false)
      × (buf_bit t.ow_data j ≡ (
          if ltb j (suc (length rest))
          then to_nat (not (sample_at bus j))
          else buf_bit s.ow_data j))
read_bits_lem s a b rest j e len fits =
    let t = read_bits (suc (length rest)) s in
    let f = read_bits-fields (suc (length rest)) s e in
    let out =
      read_from a b rest t j (read_bits-Sampling (suc (length rest)) s e len)
        (rw (f.0, f.1) (omega arith)) (rw f.1 fits) in
    (out.0, out.1, out.2, out.3 ∙ rw (f.0, f.1, f.2) (rw sub-zero (ground arith)))
