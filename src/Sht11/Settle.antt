-- ===== src/Sht11/Settle.antt =====
-- Every transfer of the humidity sensor ends: `do_smL1` of avr/fw/sht11_sm.cpp is called until it is
-- idle, has failed, or waits for the sensor to end a measurement.
use byt.Base.{
  ℕ, zero, suc, ◌+◌, ◌-◌, ◌*◌, ◌<◌, ◌≤◌, ◌≡◌, inl, inr, Bool, true, false, ◌==◌, refl,
  if◌then◌else◌, ==_iff, Bool-cases, arith,
}
use byt.Sht11.Wire.{
  State, Sht, idle, error, finising, init_transfer, init_transfer_data_pull,
  init_transfer_low_pulse_clk0, init_transfer_low_pulse_clk1, init_transfer_data_release,
  init_transfer_clk0, send8bit, send8bit_hi_pulse_clk1, send8bit_hi_pulse_clk0,
  send8bit_release_b_ack, send8bit_hi_pluse_ack_clk1, send8bit_hi_pluse_ack_clk0,
  send8bit_wait_meas, recv8bit, recv8_hi_pulse_clk1, recv8_hi_pulse_clk0, recv8bit_send_ack,
  recv8bit_send_ack_clk1, recv8bit_send_ack_clk0, recv8bit_send_ack_release, reset_clk1, reset_clk0,
  clk0, clk1, data_pull, data_release, goto, count_bit, send_bit, sent_bit, read_ack, recv_bit,
  reset_pulsed, do_sm_l1_in, do_sm_l1, init, send_byte, recv_byte, reset,
}

-- The calls that the present transfer still takes, at most, before it settles.
pub remaining : State → ℕ → ℕ
remaining idle c = 0
remaining error c = 0
remaining finising c = 1
remaining init_transfer c = 7
remaining init_transfer_data_pull c = 6
remaining init_transfer_low_pulse_clk0 c = 5
remaining init_transfer_low_pulse_clk1 c = 4
remaining init_transfer_data_release c = 3
remaining init_transfer_clk0 c = 2
remaining send8bit c = 3 * (8 - c) + 3
remaining send8bit_hi_pulse_clk1 c = 3 * (8 - c) + 2
remaining send8bit_hi_pulse_clk0 c = 3 * (8 - c) + 1
remaining send8bit_release_b_ack c = 3
remaining send8bit_hi_pluse_ack_clk1 c = 2
remaining send8bit_hi_pluse_ack_clk0 c = 1
remaining send8bit_wait_meas c = 0
remaining recv8bit c = 3 * (8 - c) + 5
remaining recv8_hi_pulse_clk1 c = 3 * (8 - c) + 4
remaining recv8_hi_pulse_clk0 c = 3 * (8 - c) + 3
remaining recv8bit_send_ack c = 5
remaining recv8bit_send_ack_clk1 c = 4
remaining recv8bit_send_ack_clk0 c = 3
remaining recv8bit_send_ack_release c = 2
remaining reset_clk1 c = 2 * (12 - c) + 1
remaining reset_clk0 c = 2 * (12 - c)

-- The bits counted are below the number that the transfer has.
pub limit : State → ℕ
limit reset_clk1 = 12
limit reset_clk0 = 12
limit send8bit = 8
limit send8bit_hi_pulse_clk1 = 8
limit send8bit_hi_pulse_clk0 = 8
limit recv8bit = 8
limit recv8_hi_pulse_clk1 = 8
limit recv8_hi_pulse_clk0 = 8
limit _ = 256

-- One call with the transfer unsettled.
pub settle_step :
    (st : State) (line : Bool) (s : Sht)
    → s.bit_cnt < limit st
    → (0 < remaining st s.bit_cnt)
    → (let t = do_sm_l1_in st line s in
        (t.bit_cnt < limit t.state) × (remaining t.state t.bit_cnt + 1 ≤ remaining st s.bit_cnt))
unfolding do_sm_l1_in clk0 clk1 data_pull data_release goto send_bit sent_bit count_bit read_ack
    recv_bit reset_pulsed limit remaining
settle_step idle line s h e = absurd (omega arith)
settle_step error line s h e = absurd (omega arith)
settle_step finising line s h e = ground arith
settle_step init_transfer line s h e = ground arith
settle_step init_transfer_data_pull line s h e = ground arith
settle_step init_transfer_low_pulse_clk0 line s h e = ground arith
settle_step init_transfer_low_pulse_clk1 line s h e = ground arith
settle_step init_transfer_data_release line s h e = ground arith
settle_step init_transfer_clk0 line s h e = ground arith
settle_step send8bit line s h e = ground arith
settle_step send8bit_hi_pulse_clk1 line s h e = ground arith
settle_step send8bit_hi_pulse_clk0 line s h e = ground arith
settle_step send8bit_release_b_ack line s h e = ground arith
settle_step send8bit_hi_pluse_ack_clk1 line s h e = ground arith
settle_step send8bit_hi_pluse_ack_clk0 line s h e = ground arith
settle_step send8bit_wait_meas line s h e = absurd (omega arith)
settle_step recv8bit line s h e = ground arith
settle_step recv8_hi_pulse_clk1 line s h e = ground arith
settle_step recv8_hi_pulse_clk0 line s h e = ground arith
settle_step recv8bit_send_ack line s h e = ground arith
settle_step recv8bit_send_ack_clk1 line s h e = ground arith
settle_step recv8bit_send_ack_clk0 line s h e = ground arith
settle_step recv8bit_send_ack_release line s h e = ground arith
settle_step reset_clk1 line s h e = ground arith
settle_step reset_clk0 line s h e = ground arith

-- The wires are idle, the transfer has failed, or the sensor is to end its measurement.
abbrev pub rests : State → Bool
rests idle = true
rests error = true
rests send8bit_wait_meas = true
rests _ = false

-- With no call left the wires rest.
rests_at_end : (st : State) (c : ℕ) → c < limit st → remaining st c ≡ 0 → rests st ≡ true
unfolding limit remaining
rests_at_end idle c h e = refl
rests_at_end error c h e = refl
rests_at_end finising c h e = absurd (omega arith)
rests_at_end init_transfer c h e = absurd (omega arith)
rests_at_end init_transfer_data_pull c h e = absurd (omega arith)
rests_at_end init_transfer_low_pulse_clk0 c h e = absurd (omega arith)
rests_at_end init_transfer_low_pulse_clk1 c h e = absurd (omega arith)
rests_at_end init_transfer_data_release c h e = absurd (omega arith)
rests_at_end init_transfer_clk0 c h e = absurd (omega arith)
rests_at_end send8bit c h e = absurd (omega arith)
rests_at_end send8bit_hi_pulse_clk1 c h e = absurd (omega arith)
rests_at_end send8bit_hi_pulse_clk0 c h e = absurd (omega arith)
rests_at_end send8bit_release_b_ack c h e = absurd (omega arith)
rests_at_end send8bit_hi_pluse_ack_clk1 c h e = absurd (omega arith)
rests_at_end send8bit_hi_pluse_ack_clk0 c h e = absurd (omega arith)
rests_at_end send8bit_wait_meas c h e = refl
rests_at_end recv8bit c h e = absurd (omega arith)
rests_at_end recv8_hi_pulse_clk1 c h e = absurd (omega arith)
rests_at_end recv8_hi_pulse_clk0 c h e = absurd (omega arith)
rests_at_end recv8bit_send_ack c h e = absurd (omega arith)
rests_at_end recv8bit_send_ack_clk1 c h e = absurd (omega arith)
rests_at_end recv8bit_send_ack_clk0 c h e = absurd (omega arith)
rests_at_end recv8bit_send_ack_release c h e = absurd (omega arith)
rests_at_end reset_clk1 c h e = absurd (omega arith)
rests_at_end reset_clk0 c h e = absurd (omega arith)

-- The calls go on while the wires do not rest, at most `n` of them; `lines` is what the data wire
-- shows in each.
unfoldable pub run_settle : ℕ → (ℕ → Bool) → Sht → Sht
run_settle zero lines s = s
run_settle (suc n) lines s =
    let rest = run_settle n lines (do_sm_l1 (lines n) s) in if rests s.state then s else rest

-- From a state whose bit counter is below what its transfer counts to, `n` calls are enough for a
-- transfer with at most `n` calls left, whatever the sensor does.
pub settles :
    (n : ℕ) (lines : ℕ → Bool) (s : Sht)
    → s.bit_cnt < limit s.state
    → remaining s.state s.bit_cnt ≤ n
    → rests (run_settle n lines s).state ≡ true
unfolding run_settle do_sm_l1
settles zero lines s h k = rests_at_end s.state s.bit_cnt h (omega arith)
settles (suc n) lines s h k = elim (Bool-cases (rests s.state)) [
  | inl e ↦ rw e e
  | inr e ↦
      let left : 0 < remaining s.state s.bit_cnt =
        elim (Bool-cases (remaining s.state s.bit_cnt == 0)) [
          | inl z ↦ absurd (ground (arith, rests_at_end s.state s.bit_cnt h ((==_iff _ 0).0 z), e))
          | inr z ↦ ground arith
        ] in
      let step = settle_step s.state (lines n) s h left in
      rw e (settles n lines (do_sm_l1 (lines n) s) step.0 (omega (arith, step.1)))
]

-- Each of the four requests starts a transfer that ends within 29 calls, whatever the sensor does: the
-- wires are idle then, or the transfer has failed, or the sensor is to end its measurement.
pub requests-settle :
    (lines : ℕ → Bool) (v : ℕ) (ack : Bool) (s : Sht)
    → s.bit_cnt < 256
    → (rests (run_settle 29 lines (init s)).state ≡ true)
      × (rests (run_settle 29 lines (send_byte v s)).state ≡ true)
      × (rests (run_settle 29 lines (recv_byte ack s)).state ≡ true)
      × (rests (run_settle 29 lines (reset s)).state ≡ true)
unfolding init send_byte recv_byte reset clk0 data_release remaining limit
requests-settle lines v ack s h = (
  settles 29 lines (init s) h (omega arith),
  settles 29 lines (send_byte v s) (omega arith) (omega arith),
  settles 29 lines (recv_byte ack s) (omega arith) (omega arith),
  settles 29 lines (reset s) (omega arith) (omega arith),
)
