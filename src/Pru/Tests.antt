-- ===== src/Pru/Tests.antt =====
-- The real-time unit at concrete inputs.
use byt.Base.{
  zero, suc, ◌/◌, ◌<◌, Bool, subst, sym, length, ℕ, ◌≡◌, refl, true, false, List, [], ◌∷◌,
  replicate, arith,
}
use byt.Pru.{frame, ot_ok, status, rsp_error, elapsed, timeout}
use byt.Pru.Wire
use byt.Pru.Wire.{Wire, OwState, dur_wait_presence, wait_reset_pulse_check1}
use byt.Pru.Master.{read_bits, write_bits, ow_sm_do}
use byt.Pru.Message.{Request, Pru, cmd_ow_init, cmd_ow_read, cmd_ow_write, process_message, round}
use byt.Pru.Safety.{power_up, Reach, Reach-in_buffer, refused_read_lem}
use byt.Pru.Progress.{run, IsSlow, idle_stays, run-settles}
use byt.Pru.Opentherm.{Ot, idle, wait_frame, frame_wait_gap, ot_transmit, ot_sm_do}
use byt.Pru.Transmit.{levels, send_all, bits_from, manchester, ot_transmit_lem}
use byt.Pru.Transmit
use byt.Pru.Receive.{hear, hear_lem}
use byt.Pru.Receive

abbrev resting : Ot
resting = record {
  state = idle;
  prev_v = false;
  t0 = 7;
  t0_frame = 0;
  left = 0;
  value = 0;
  bus = false;
  replies = [];
}

abbrev send_slot : Transmit.Slot
send_slot = record {
  early = 20000 ∷ 90000 ∷ [];
  middle = 110000;
  later = 150000 ∷ [];
  end = 200010;
}

abbrev hear_slot : Receive.Slot
hear_slot = record { still = 20000 ∷ []; border = 101000; steady = 150000 ∷ []; middle = 199000 }

ot_transmit_lem_example :
    let t = ot_transmit 4294967000 0x10190000 resting in
    (levels (replicate 34 send_slot) t ≡ manchester (true ∷ bits_from 32 0x10190000))
    × ((send_all (replicate 34 send_slot) t).state ≡ frame_wait_gap)
ot_transmit_lem_example =
    ot_transmit_lem 4294967000 0x10190000 resting (replicate 34 send_slot) (omega arith) refl refl
      (omega arith)

abbrev waiting : Ot
waiting = record resting { state = wait_frame }

hear_lem_example :
    let t =
      hear (replicate 34 hear_slot) (true ∷ bits_from 32 0xC0192A80) (ot_sm_do 5000 true waiting) in
    (t.replies ≡ frame ot_ok 0xC0192A80 ∷ waiting.replies) × (t.state ≡ idle)
hear_lem_example =
    hear_lem 5000 0xC0192A80 waiting (replicate 34 hear_slot) (omega arith) (omega arith) refl refl
      (omega arith)

abbrev write_request : Request
write_request = record { cmd = cmd_ow_write; len = 9; word = 8; bytes = 0x55 ∷ [] }

abbrev writing : Pru
writing = round 1000 false false (write_request ∷ []) power_up

abbrev writing-Reach : Reach writing
writing-Reach = Reach.asked 1000 false false write_request refl (omega arith) Reach.start

Reach-in_buffer_example :
    (length writing.ow.ow_data ≡ 12) × (writing.ow.bitidx / 8 < length writing.ow.ow_data)
unfolding round process_message write_bits
Reach-in_buffer_example = Reach-in_buffer writing-Reach refl

abbrev read_request : ℕ → Request
read_request n = record { cmd = cmd_ow_read; len = 8; word = n; bytes = [] }

abbrev reading : Pru
reading = round 1000 false false (read_request 8 ∷ []) power_up

refused_read_lem_example :
    let t = process_message 2000 false (read_request 1000) reading in
    (t.ow.replies ≡ status rsp_error ∷ reading.ow.replies)
    × (t.ow.state ≡ OwState.read_bits)
    × (t.ow.bitidx ≡ reading.ow.bitidx)
    × (t.ow.bits_count ≡ 1000)
unfolding round process_message read_bits
refused_read_lem_example =
    refused_read_lem 2000 false (read_request 1000) reading refl refl (omega arith) (omega arith)
      refl

abbrev init_request : Request
init_request = record { cmd = cmd_ow_init; len = 4; word = 0; bytes = [] }

abbrev resetting : Pru
resetting = round 1000 false false (init_request ∷ []) power_up

abbrev resetting-Reach : Reach resetting
resetting-Reach = Reach.asked 1000 false false init_request refl (omega arith) Reach.start

-- An idle master stays as it is.
idle-IsSlow :
    (n : ℕ) (s : Wire)
    → s.state ≡ Wire.idle
    → dur_wait_presence < elapsed 500000 s.t0
    → IsSlow (replicate n (500000, false)) s
idle-IsSlow zero s e h = tt
idle-IsSlow (suc n) s e h = (
  h,
  subst (λ t. IsSlow (replicate n (500000, false)) t) (sym (idle_stays 500000 false s e))
      (idle-IsSlow n s e h),
)

abbrev calls : List (ℕ × Bool)
calls = (500000, false) ∷ replicate 383 (500000, false)

calls-IsSlow : IsSlow calls resetting.ow
unfolding round ow_sm_do elapsed process_message wait_reset_pulse_check1 timeout
calls-IsSlow =
    (omega arith, idle-IsSlow 383 (ow_sm_do 500000 false resetting.ow) refl (omega arith))

run-settles_example : (run calls resetting.ow).state ≡ Wire.idle
run-settles_example = run-settles calls resetting-Reach calls-IsSlow (omega arith)
