-- ===== src/Scd4x/Polling.antt =====
-- The limit of the polling for data of the CO2 sensor (`waitReadyCountMax` of avr/fw/main.cpp).
use byt.Base.{Bool-cases, inl, inr, ◌&&◌, ltb, ℕ, ◌≡◌, ◌≢◌, refl, true, false, ◌+◌, arith}
use byt.Pv.{Pv}
use byt.Scd4x.Twi.{Twi, idle, check_crc_single_item, data_ready}
use byt.Scd4x.Cycle.{
  is_pending, is_idle, wait_ready_count_max, StateL2, disabled, initializing, relaxing,
  waiting_for_ready, relaxing_before_read, reading, recover_error, recover_error_restart_meas,
  recover_error_power_off, recover_error_power_on, recover_error_power_on_relaxing, Scd,
  error_handle, fail_round, relax, on_reading, do_sm_l2, do_sm_in, on_initializing, on_relaxing,
  on_waiting_for_ready, on_relaxing_before_read, on_recover_error, on_restart_meas, on_power_off,
  on_power_on, on_power_on_relaxing, start_periodic_meas, disable_l2, recover_error_now,
}

-- What can happen to the cycle: a call of `do_smL2`, the commands that start and end it, and any
-- change by others of the bus and of the process image.
pub data Step (s : Scd) : Scd → Type 0 where
  tick : (now : ℕ) → Step s (do_sm_l2 now s)
  starts : Step s (start_periodic_meas s)
  stops : Step s (disable_l2 s)
  others : (twi : Twi) (pv : Pv) → Step s (record s { twi = twi; pv = pv })

pub data Reach (s : Scd) : Scd → Type 0 where
  here : Reach s s
  next : {t u : Scd} → Reach s t → Step t u → Reach s u

abbrev ReadyCount : Scd → Type 0
ReadyCount s = s.state_l2 ≡ waiting_for_ready → s.wait_ready_count ≡ 0

fail_round_leaves : (now : ℕ) (s : Scd) → (fail_round now s).state_l2 ≢ waiting_for_ready
unfolding fail_round error_handle relax
fail_round_leaves now s = ground arith

reading_leaves :
    (now : ℕ) (s : Scd)
    → s.state_l2 ≢ waiting_for_ready
    → (on_reading now s).state_l2 ≢ waiting_for_ready
unfolding on_reading relax
reading_leaves now s h = ground (arith, fail_round_leaves now s)

elsewhere : (s : Scd) → s.state_l2 ≢ waiting_for_ready → ReadyCount s
elsewhere s h e = absurd (h e)

relax_leaves : (now : ℕ) (s : Scd) → (relax now s).state_l2 ≢ waiting_for_ready
unfolding relax
relax_leaves now s = ground arith

before_read : relaxing_before_read ≢ waiting_for_ready
before_read = ground arith

waiting_leaves : (now : ℕ) (s : Scd) → ReadyCount s → ReadyCount (on_waiting_for_ready now s)
unfolding on_waiting_for_ready
waiting_leaves now s h =
    let counted = record s { wait_ready_count = s.wait_ready_count + 1 } in
    elim (Bool-cases (is_pending s.twi.state)) [
      | inl a ↦ rw a h
      | inr a ↦ elim (Bool-cases (is_idle s.twi.state && check_crc_single_item s.twi)) [
        | inl b ↦ elim (Bool-cases (data_ready s.twi)) [
          | inl c ↦ rw a (rw b (rw c (λ e. absurd (before_read e))))
          | inr c ↦ elim (Bool-cases (ltb s.wait_ready_count wait_ready_count_max)) [
            | inl d ↦
                rw a (rw b (rw c (rw d (elsewhere (relax now counted) (relax_leaves now counted)))))
            | inr d ↦ rw a (
                rw b (
                  rw c (
                    rw d (
                      elsewhere (fail_round now (recover_error_now now counted))
                        (fail_round_leaves now (recover_error_now now counted))))))
          ]
        ]
        | inr b ↦ rw a (rw b (elsewhere (fail_round now s) (fail_round_leaves now s)))
      ]
    ]

tick_count :
    (st : StateL2) (now : ℕ) (s : Scd)
    → s.state_l2 ≡ st
    → ReadyCount s
    → ReadyCount (do_sm_in st now s)
unfolding do_sm_in
tick_count disabled now s e h = h
tick_count initializing now s e h = unfold on_initializing error_handle in ground arith
tick_count relaxing now s e h = unfold on_relaxing in ground arith
tick_count waiting_for_ready now s e h = waiting_leaves now s h
tick_count relaxing_before_read now s e h = unfold on_relaxing_before_read in ground arith
tick_count reading now s e h = ground (arith, reading_leaves now s)
tick_count recover_error now s e h = unfold on_recover_error in ground arith
tick_count recover_error_restart_meas now s e h =
    unfold on_restart_meas start_periodic_meas in ground arith
tick_count recover_error_power_off now s e h = unfold on_power_off in ground arith
tick_count recover_error_power_on now s e h = unfold on_power_on in ground arith
tick_count recover_error_power_on_relaxing now s e h =
    unfold on_power_on_relaxing start_periodic_meas in ground arith

Step-ReadyCount : {s t : Scd} → Step s t → ReadyCount s → ReadyCount t
unfolding do_sm_l2 start_periodic_meas disable_l2
Step-ReadyCount {s} (tick now) h = tick_count s.state_l2 now s refl h
Step-ReadyCount {s} starts h = ground arith
Step-ReadyCount {s} stops h = ground arith
Step-ReadyCount {s} (others twi pv) h = h

Reach-ReadyCount : {s t : Scd} → ReadyCount s → Reach s t → ReadyCount t
Reach-ReadyCount h here = h
Reach-ReadyCount h (next r st) = Step-ReadyCount st (Reach-ReadyCount h r)

-- Whatever has happened since the cycle was disabled, the sensor's answer that no data is ready
-- never reaches the limit of ten: the cycle relaxes and polls again, the count of errors does not
-- grow and the values in the image stay as they are.
pub never_ready_polls_on :
    {s t : Scd} (now : ℕ)
    → s.state_l2 ≡ disabled
    → Reach s t
    → t.state_l2 ≡ waiting_for_ready
    → t.twi.state ≡ idle
    → check_crc_single_item t.twi ≡ true
    → data_ready t.twi ≡ false
    → let u = do_sm_l2 now t in
      (u.state_l2 ≡ relaxing) × (u.err_count ≡ t.err_count) × (u.pv ≡ t.pv)
unfolding do_sm_l2 do_sm_in on_waiting_for_ready relax
never_ready_polls_on {s} {t} now d r w i c n =
    let zero_count : t.wait_ready_count ≡ 0 = Reach-ReadyCount (λ e. ground arith) r w in
    ground arith
