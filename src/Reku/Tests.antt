-- ===== src/Reku/Tests.antt =====
-- The heat recovery unit and the daemon at concrete inputs.
use byt.Base.{
  ℕ, ◌+◌, ◌^◌, ◌≤◌, ◌<◌, ◌≡◌, inr, refl, Bool, true, false, List, [], ◌∷◌, length, drop, get_or,
  leb, replicate, arith,
}
use byt.Reku.{timeout16, communicating, rx_reading, mark_ind, quiet, byte, start_tx, do_rx}
use byt.Reku.Polls.{hears, quiets}
use byt.Reku.Transmit.{transmits}
use byt.Reku.Daemon.{Daemon, values, got, answer, control}
use byt.Reku.Measure.{bubble_sort}
use byt.Reku.Median.{tally, Sorted, bubble_sort_lem}
use byt.Reku.Loop.{Plant, Readings, round, power_up}
use byt.Reku.Reports.{Reach, Reach-inside, Reach-reports, Reach-obeys}

abbrev readings : Readings
readings = record {
  tmr0 = 2300;
  tmr2 = 120;
  adc_done = true;
  adres = 700;
  portb = 0;
  tx1if = true;
  trmt = false;
  incoming = byte 0x54 false;
}

abbrev started : Plant
started = round readings (power_up 0x1C 0)

abbrev started-Reach : Reach started
started-Reach = Reach.next readings (omega arith) (Reach.reset 0x1C 0 (omega arith))

Reach-inside_example :
    (started.link.rx_idx < length started.link.reku_rx)
    × (started.link.tx_idx ≤ length started.link.reku_tx)
    × (started.meas.ch_intk.medidx < length started.meas.ch_intk.medbuf)
    × (started.meas.ch_exht.medidx < length started.meas.ch_exht.medbuf)
    × (started.meas.ch_intk.avgsum + 1023 < 2 ^ 16)
    × (started.meas.ch_exht.avgsum + 1023 < 2 ^ 16)
    × (started.link.intk.temp < 1024)
    × (started.link.exht.temp < 1024)
Reach-inside_example = Reach-inside started-Reach

abbrev warm : Plant
warm = round readings (power_up 0x43 0)

abbrev warm-Reach : Reach warm
warm-Reach = Reach.next readings (omega arith) (Reach.reset 0x43 0 (omega arith))

abbrev daemon : Daemon
daemon = record {
  comm_ok = false;
  timeout_cnt = 3;
  bypass = false;
  written = [];
  shown = [];
  stopped = false;
}

abbrev polls : List (Bool × Bool)
polls = (false, false) ∷ replicate 10 (true, false)

Reach-reports_example :
    let l = warm.link in
    answer (got (drop (length l.sent) (transmits polls (start_tx mark_ind l)).sent)) daemon
    ≡ record daemon { comm_ok = true; timeout_cnt = 0; shown = values l.intk l.exht ∷ daemon.shown }
unfolding round power_up
Reach-reports_example = Reach-reports mark_ind polls daemon warm-Reach (inr refl) refl (omega arith)

Reach-obeys_example :
    let f = control true 70 80 in
    let w =
      hears 40000 40010 40020 40030
        (40001 ∷ 40005 ∷ [])
        []
        (40025 ∷ [])
        (get_or f 0 0)
        (get_or f 1 0)
        (get_or f 2 0)
        (get_or f 3 0)
        (quiets (39000 ∷ []) (do_rx 3000 quiet (do_rx 2600 quiet started.link))) in
    (w.outputs.bypass ≡ true)
    × (w.outputs.ccpr1l ≡ 70)
    × (w.outputs.ccpr2l ≡ 80)
    × (w.comm_state ≡ communicating)
    × (w.rx_state ≡ rx_reading)
    × (w.rx_idx ≡ 0)
unfolding round power_up timeout16
Reach-obeys_example =
    Reach-obeys 2600 3000 40000 40010 40020 40030 (39000 ∷ []) (40001 ∷ 40005 ∷ []) [] (40025 ∷ [])
      true 70 80 started-Reach refl refl (refl, (refl, tt)) tt (refl, tt)

abbrev five : List ℕ
five = 9 ∷ 3 ∷ 7 ∷ 3 ∷ 8 ∷ []

bubble_sort_lem_example :
    let v = get_or (bubble_sort five) 2 0 in
    (tally (λ x. leb x 5) (bubble_sort five) ≡ tally (λ x. leb x 5) five)
    × Sorted (bubble_sort five)
    × (3 ≤ tally (λ x. leb x v) five)
    × (3 ≤ tally (λ x. leb v x) five)
bubble_sort_lem_example = bubble_sort_lem five (λ x. leb x 5) refl
