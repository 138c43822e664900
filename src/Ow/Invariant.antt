-- ===== src/Ow/Invariant.antt =====
-- What holds of the 1-wire master between two steps, for any interleaving of commands and timer
-- interrupts and any behaviour of the bus.
use byt.Base.{
  ℕ, ◌+◌, ◌%◌, ◌≤◌, ◌<◌, ◌≡◌, ◌≢◌, ◌⊎◌, inl, inr, refl, ◌∙◌, leb, Bool-cases, Bool, false, length,
  replicate, if◌then◌else◌, ◌==◌, [], arith,
}
use byt.Ow.Bus.{
  busy, read_bits_failure, write_bits_failure, idle, init_wait_reset_pulse_finished,
  init_wait_presence, init_wait_presence_cleared, init_wait_recovery, reading_bits, writing_bits,
  searching, finished_ok, wait_sample_event, wait_slot_end, power0, keep_after_write, Ow, response,
  set_state_idle,
}
use byt.Ow.Ops.{
  wait_reset_pulse, wait_presence_pulse, wait_presence_cleared, start_write_bit, start_read_bit,
  after_write_bit, after_read_bit, next_bit, arm_strong_power,
}

abbrev pub InSlot : Ow → Type 0
InSlot s = (s.bit_io_state ≡ wait_sample_event) ⊎ (s.bit_io_state ≡ wait_slot_end)

abbrev pub IsTransfer : Ow → Type 0
IsTransfer s = (s.state ≡ reading_bits) ⊎ (s.state ≡ writing_bits)

-- A count of 0 still transfers one bit.
abbrev pub max_one : ℕ → ℕ
max_one n = if n == 0 then 1 else n

pub record Inv (s : Ow) : Type 0 where
  pub buffer : length s.ow_data ≡ 12
  pub count_fits : s.bits_count ≤ 96
  pub timer_off : s.state ≡ idle → s.tccr0a ≡ 0
  pub timer_on : s.state ≢ idle → (0 < s.tccr0a) × (s.timsk0 ≡ 1)
  pub in_transfer : IsTransfer s → InSlot s × (s.bitidx < max_one s.bits_count)
  pub in_search : s.state ≡ searching → InSlot s × (s.bitidx ≤ 2)
  pub no_failure : (s.response_code ≢ read_bits_failure) × (s.response_code ≢ write_bits_failure)
  pub no_recovery : s.state ≢ init_wait_recovery

-- The state after reset: variables in .bss and their initialisers.
abbrev pub boot : Ow
boot = record {
  state = idle;
  strong_power_request = power0;
  bit_io_state = finished_ok;
  bitidx = 0;
  response_code = busy;
  bits_count = 0;
  ow_data = replicate 12 0;
  porta = false;
  ddra = false;
  tcnt0 = 0;
  tccr0a = 0;
  tifr0 = 0;
  timsk0 = 0;
  trace = [];
}

pub wait_reset_pulse-Inv :
    (a : Bool) (s : Ow)
    → Inv s
    → s.state ≡ init_wait_reset_pulse_finished
    → Inv (wait_reset_pulse a s)
unfolding wait_reset_pulse
wait_reset_pulse-Inv a s v e = ground arith

pub wait_presence_pulse-Inv :
    (a : Bool) (s : Ow) → Inv s → s.state ≡ init_wait_presence → Inv (wait_presence_pulse a s)
unfolding wait_presence_pulse
wait_presence_pulse-Inv a s v e = ground arith

pub wait_presence_cleared-Inv :
    (a : Bool) (s : Ow)
    → Inv s
    → s.state ≡ init_wait_presence_cleared
    → Inv (wait_presence_cleared a s)
unfolding wait_presence_cleared
wait_presence_cleared-Inv a s v e = ground arith

-- What the start of a slot leaves alone, and that it arms the timer.
pub record Started (s t : Ow) : Type 0 where
  pub same_state : t.state ≡ s.state
  pub same_idx : t.bitidx ≡ s.bitidx
  pub same_count : t.bits_count ≡ s.bits_count
  pub same_data : t.ow_data ≡ s.ow_data
  pub same_response : t.response_code ≡ s.response_code
  pub same_timsk : t.timsk0 ≡ s.timsk0
  pub slot : InSlot t
  pub ticking : 0 < t.tccr0a

pub start_write_bit-Started : (s : Ow) → Started s (start_write_bit s)
unfolding start_write_bit
start_write_bit-Started s = ground arith

pub start_read_bit-Started : (s : Ow) → Started s (start_read_bit s)
unfolding start_read_bit
start_read_bit-Started s = ground arith

pub idle-Inv :
    (t : Ow)
    → length t.ow_data ≡ 12
    → t.bits_count ≤ 96
    → t.state ≡ idle
    → t.tccr0a ≡ 0
    → (t.response_code ≢ read_bits_failure) × (t.response_code ≢ write_bits_failure)
    → Inv t
idle-Inv t buffer count i off ok = ground arith

pub transfer-Inv :
    (t : Ow)
    → length t.ow_data ≡ 12
    → t.bits_count ≤ 96
    → IsTransfer t
    → 0 < t.tccr0a
    → t.timsk0 ≡ 1
    → InSlot t
    → t.bitidx < max_one t.bits_count
    → (t.response_code ≢ read_bits_failure) × (t.response_code ≢ write_bits_failure)
    → Inv t
transfer-Inv t buffer count (inl r) on irq slot idx ok = ground arith
transfer-Inv t buffer count (inr w) on irq slot idx ok = ground arith

pub search-state-Inv :
    (t : Ow)
    → length t.ow_data ≡ 12
    → t.bits_count ≤ 96
    → t.state ≡ searching
    → 0 < t.tccr0a
    → t.timsk0 ≡ 1
    → InSlot t
    → t.bitidx ≤ 2
    → (t.response_code ≢ read_bits_failure) × (t.response_code ≢ write_bits_failure)
    → Inv t
search-state-Inv t buffer count r on irq slot idx ok = ground arith

-- A slot begun from a state of a transfer whose index is in range.
pub begun-Inv :
    (s t : Ow)
    → Started s t
    → IsTransfer s
    → length s.ow_data ≡ 12
    → s.bits_count ≤ 96
    → s.timsk0 ≡ 1
    → s.bitidx < max_one s.bits_count
    → (s.response_code ≢ read_bits_failure) × (s.response_code ≢ write_bits_failure)
    → Inv t
begun-Inv s t b (inl r) buffer count irq idx ok =
    transfer-Inv t (rw b.same_data buffer) (rw b.same_count count) (inl (b.same_state ∙ r))
      b.ticking (b.same_timsk ∙ irq) b.slot (rw (b.same_idx, b.same_count) idx)
      (rw b.same_response ok)
begun-Inv s t b (inr r) buffer count irq idx ok =
    transfer-Inv t (rw b.same_data buffer) (rw b.same_count count) (inr (b.same_state ∙ r))
      b.ticking (b.same_timsk ∙ irq) b.slot (rw (b.same_idx, b.same_count) idx)
      (rw b.same_response ok)

pub begun_search-Inv :
    (s t : Ow)
    → Started s t
    → s.state ≡ searching
    → length s.ow_data ≡ 12
    → s.bits_count ≤ 96
    → s.timsk0 ≡ 1
    → s.bitidx ≤ 2
    → (s.response_code ≢ read_bits_failure) × (s.response_code ≢ write_bits_failure)
    → Inv t
begun_search-Inv s t b r buffer count irq idx ok =
    search-state-Inv t (rw b.same_data buffer) (rw b.same_count count) (b.same_state ∙ r) b.ticking
      (b.same_timsk ∙ irq) b.slot (rw b.same_idx idx) (rw b.same_response ok)

-- The request for strong power is no part of the invariant.
arm_strong_power_cases :
    (s : Ow)
    → (arm_strong_power s ≡ s)
      ⊎ (arm_strong_power s ≡ record s { strong_power_request = keep_after_write })
unfolding arm_strong_power
arm_strong_power_cases s = ground arith

-- What holds of a transfer whose slot has ended, before the index moves on.
pub record Ended (s : Ow) : Type 0 where
  pub end_buffer : length s.ow_data ≡ 12
  pub end_count : s.bits_count ≤ 96
  pub end_irq : s.timsk0 ≡ 1
  pub end_ok : (s.response_code ≢ read_bits_failure) × (s.response_code ≢ write_bits_failure)

pub after_write_bit-Inv :
    (s : Ow)
    → Ended s
    → s.bitidx < max_one s.bits_count
    → s.state ≡ writing_bits
    → Inv (after_write_bit finished_ok s)
unfolding after_write_bit response set_state_idle next_bit
after_write_bit-Inv s v x e = elim (Bool-cases (leb s.bits_count ((s.bitidx + 1) % 256))) [
  | inl last ↦ rw last (idle-Inv _ v.end_buffer v.end_count refl refl (ground arith))
  | inr more ↦ rw more (elim (arm_strong_power_cases (next_bit s)) [
    | inl p ↦ rw p (
        begun-Inv (next_bit s) _ (start_write_bit-Started _) (inr e) v.end_buffer v.end_count
          v.end_irq (ground arith) v.end_ok)
    | inr p ↦ rw p (
        begun-Inv
          (record s { bitidx = (s.bitidx + 1) % 256; strong_power_request = keep_after_write }) _
          (start_write_bit-Started _) (inr e) v.end_buffer v.end_count v.end_irq (ground arith)
          v.end_ok)
  ])
]

pub after_read_bit-Inv :
    (s : Ow)
    → Ended s
    → s.bitidx < max_one s.bits_count
    → s.state ≡ reading_bits
    → Inv (after_read_bit finished_ok s)
unfolding after_read_bit response set_state_idle next_bit
after_read_bit-Inv s v x e = elim (Bool-cases (leb s.bits_count ((s.bitidx + 1) % 256))) [
  | inl last ↦ rw last (idle-Inv _ v.end_buffer v.end_count refl refl (ground arith))
  | inr more ↦ rw more (
      begun-Inv (next_bit s) _ (start_read_bit-Started _) (inl e) v.end_buffer v.end_count v.end_irq
        (ground arith) v.end_ok)
]
