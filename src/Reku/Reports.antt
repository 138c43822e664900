-- ===== src/Reku/Reports.antt =====
-- What the loop of rekuperacia_fw/main.c keeps, from reset on, and what the daemon is told.
use byt.Base.{
  ℕ, ◌+◌, ◌^◌, ◌≤◌, ◌<◌, ◌≡◌, ◌⊎◌, inl, inr, refl, sym, ap, ◌∙◌, Bool, true, false, List, ◌∷◌, ◌==◌,
  if◌then◌else◌, length, drop, get_or, set, Bool-cases, bit_and, arith,
}
use byt.Reku.{
  Reku, tx_idle, rx_err, rx_reading, ms_ticks, timeout16, mark_cnf, mark_ind, comm_lost,
  communicating, has_comm, failsafe, update_control_pvs, start_tx, report, Incoming, quiet, byte,
  on_good_frame, on_frame, on_stored, on_byte, on_silence, on_quiet, do_tx, do_rx,
}
use byt.Reku.Receive.{do_rx-Inv, start_tx_keeps, TxState-cases}
use byt.Reku.Polls.{Within, quiets, hears}
use byt.Reku.Exchange.{IsMeasured, report_lem, command_lem}
use byt.Reku.Transmit.{transmits, ready}
use byt.Reku.Daemon.{Daemon, got, answer, values, control}
use byt.Reku.Measure.{fell}
use byt.Reku.Loop.{Plant, Readings, do_tacho, do_measure, round, init, power_up}
use byt.Reku.Safety.{AreSound, IsGood, do_meas_temp-Fine, tacho-fits, do_tx-IsGood}

-- What the receiver leaves alone, or starts anew.
record IsSending (s : Reku) : Type 0 where
  tx_inside : s.tx_idx ≤ 10
  tx_room : length s.reku_tx ≡ 10
  intk : IsMeasured s.intk
  exht : IsMeasured s.exht
  flags : s.reset_condition_flags < 256

start_tx-IsSending : (mark : ℕ) (s : Reku) → IsSending s → IsSending (start_tx mark s)
unfolding start_tx report
start_tx-IsSending mark s h = elim (TxState-cases s.tx_state) [
  | inl e ↦
      rw (e, start_tx)
        (record {
          tx_inside = omega arith;
          tx_room = refl;
          intk = h.intk;
          exht = h.exht;
          flags = h.flags;
        })
  | inr e ↦ rw (e, start_tx) (h)
]

on_silence-IsSending : (t : ℕ) (s : Reku) → IsSending s → IsSending (on_silence t s)
unfolding on_silence
on_silence-IsSending t s h =
    let keep : (w : Reku) → IsSending w → IsSending (start_tx mark_ind (record w { t0_comm = t })) =
      λ w k.
        start_tx-IsSending mark_ind (record w { t0_comm = t })
          (record {
            tx_inside = k.tx_inside;
            tx_room = k.tx_room;
            intk = k.intk;
            exht = k.exht;
            flags = k.flags;
          }) in
    elim (Bool-cases (has_comm s.comm_state)) [
      | inl e ↦
          rw (e, on_silence)
            (keep (record s { comm_state = comm_lost; outputs = failsafe s.outputs })
              (record {
                tx_inside = h.tx_inside;
                tx_room = h.tx_room;
                intk = h.intk;
                exht = h.exht;
                flags = h.flags;
              }))
      | inr e ↦ rw (e, on_silence) (keep s h)
    ]

on_good_frame-IsSending : (t : ℕ) (s : Reku) → IsSending s → IsSending (on_good_frame t s)
unfolding on_good_frame
on_good_frame-IsSending t s h =
    start_tx-IsSending mark_cnf
      (record s {
        t0_comm = t;
        comm_state = communicating;
        outputs = update_control_pvs s.reku_rx s.outputs;
      })
      (record {
        tx_inside = h.tx_inside;
        tx_room = h.tx_room;
        intk = h.intk;
        exht = h.exht;
        flags = h.flags;
      })

on_frame-IsSending : (t : ℕ) (s : Reku) → IsSending s → IsSending (on_frame t s)
unfolding on_frame
on_frame-IsSending t s h = ground (arith, on_good_frame-IsSending t s h)

on_stored-IsSending : (t : ℕ) (s : Reku) → IsSending s → IsSending (on_stored t s)
unfolding on_stored
on_stored-IsSending t s h = ground (arith, on_frame-IsSending t s h)

do_rx-IsSending : (t : ℕ) (i : Incoming) (s : Reku) → IsSending s → IsSending (do_rx t i s)
unfolding do_rx on_byte on_quiet
do_rx-IsSending t quiet s h = ground (arith, on_silence-IsSending t s h)
do_rx-IsSending t (byte v true) s h =
    let u = record s {
      reku_rx = set s.reku_rx s.rx_idx v;
      rx_idx = 0;
      cren = false;
      rx_state = rx_err;
    } in
    ground (arith, on_stored-IsSending t u)
do_rx-IsSending t (byte v false) s h =
    let u = record s { reku_rx = set s.reku_rx s.rx_idx v; rx_idx = s.rx_idx + 1 } in
    ground (arith, on_stored-IsSending t u)

do_rx-IsGood : (t : ℕ) (i : Incoming) (s : Reku) → IsGood s → IsGood (do_rx t i s)
do_rx-IsGood t i s g =
    let h = do_rx-IsSending t i s (record {
      tx_inside = g.tx_inside;
      tx_room = g.tx_room;
      intk = g.intk;
      exht = g.exht;
      flags = g.flags;
    }) in
    record {
      receiver = do_rx-Inv t i s g.receiver;
      tx_inside = h.tx_inside;
      tx_room = h.tx_room;
      intk = h.intk;
      exht = h.exht;
      flags = h.flags;
    }

record IsFine (s : Plant) : Type 0 where
  meas : AreSound s.meas
  link : IsGood s.link

do_tacho-IsFine : (tmr0 portb : ℕ) (s : Plant) → IsFine s → IsFine (do_tacho tmr0 portb s)
unfolding do_tacho
do_tacho-IsFine tmr0 portb s h =
    let a =
      tacho-fits tmr0 (fell s.tacho_bits portb 32) s.tacho_intk s.link.intk.period
        h.link.intk.period_fits in
    let b =
      tacho-fits tmr0 (fell s.tacho_bits portb 16) s.tacho_exht s.link.exht.period
        h.link.exht.period_fits in
    record {
      meas = h.meas;
      link = record {
        receiver = record {
          inside = h.link.receiver.inside;
          room = h.link.receiver.room;
          dropped = h.link.receiver.dropped;
        };
        tx_inside = h.link.tx_inside;
        tx_room = h.link.tx_room;
        intk = record { period_fits = a; temp_fits = h.link.intk.temp_fits };
        exht = record { period_fits = b; temp_fits = h.link.exht.temp_fits };
        flags = h.link.flags;
      };
    }

do_measure-IsFine : (i : Readings) (s : Plant) → i.adres ≤ 1023 → IsFine s → IsFine (do_measure i s)
unfolding do_measure
do_measure-IsFine i s v h =
    let f = do_meas_temp-Fine i.tmr2 i.adc_done i.adres s.meas s.link v h.meas h.link in
    record { meas = f.0; link = f.1 }

round-IsFine : (i : Readings) (s : Plant) → i.adres ≤ 1023 → IsFine s → IsFine (round i s)
unfolding round
round-IsFine i s v h =
    let k = do_tacho-IsFine i.tmr0 i.portb (do_measure i s) (do_measure-IsFine i s v h) in
    let t = do_tacho i.tmr0 i.portb (do_measure i s) in
    record {
      meas = k.meas;
      link =
          do_rx-IsGood i.tmr0 i.incoming (do_tx i.tx1if i.trmt t.link)
            (do_tx-IsGood i.tx1if i.trmt t.link k.link);
    }

-- The states of the unit from reset on; the converter has ten bits.
pub data Reach : Plant → Type 0 where
  reset : (flags tmr2 : ℕ) → flags < 256 → Reach (power_up flags tmr2)
  next : {s : Plant} (i : Readings) → i.adres ≤ 1023 → Reach s → Reach (round i s)

start_tx-IsGood : (mark : ℕ) (s : Reku) → IsGood s → IsGood (start_tx mark s)
start_tx-IsGood mark s g =
    let k = start_tx_keeps mark s in
    let h = start_tx-IsSending mark s (record {
      tx_inside = g.tx_inside;
      tx_room = g.tx_room;
      intk = g.intk;
      exht = g.exht;
      flags = g.flags;
    }) in
    record {
      receiver = record {
        inside = rw (k.1) g.receiver.inside;
        room = ap length (k.2) ∙ g.receiver.room;
        dropped = λ e. k.1 ∙ g.receiver.dropped (sym (k.0) ∙ e);
      };
      tx_inside = h.tx_inside;
      tx_room = h.tx_room;
      intk = h.intk;
      exht = h.exht;
      flags = h.flags;
    }

init-IsFine : (flags tmr2 : ℕ) → flags < 256 → IsFine (init flags tmr2)
unfolding init
init-IsFine flags tmr2 h = ground (arith)

power_up-IsFine : (flags tmr2 : ℕ) → flags < 256 → IsFine (power_up flags tmr2)
unfolding power_up
power_up-IsFine flags tmr2 h =
    let f = init-IsFine flags tmr2 h in
    either (bit_and flags 0x9F == 0x1C)
      (record (init flags tmr2) { link = start_tx mark_ind (init flags tmr2).link })
      (init flags tmr2)
      (record { meas = f.meas; link = start_tx-IsGood mark_ind (init flags tmr2).link f.link }) f
  where
    either : (b : Bool) (s t : Plant) → IsFine s → IsFine t → IsFine (if b then s else t)
    either true s t k l = k
    either false s t k l = l

Reach-IsFine : {s : Plant} → Reach s → IsFine s
Reach-IsFine (reset flags tmr2 h) = power_up-IsFine flags tmr2 h
Reach-IsFine (next i v r) = round-IsFine i _ v (Reach-IsFine r)

-- In every state of the unit from reset on, whatever the line, the timers, the tachometers and the
-- ten-bit converter show in each round: the next byte to store or to send lies inside its frame or the
-- frame is complete, the next sample lies inside the buffer of the median, another median cannot
-- overflow the 16-bit sum of either channel, and both temperatures have ten bits.
pub Reach-inside :
    {s : Plant}
    → Reach s
    → (s.link.rx_idx < length s.link.reku_rx)
      × (s.link.tx_idx ≤ length s.link.reku_tx)
      × (s.meas.ch_intk.medidx < length s.meas.ch_intk.medbuf)
      × (s.meas.ch_exht.medidx < length s.meas.ch_exht.medbuf)
      × (s.meas.ch_intk.avgsum + 1023 < 2 ^ 16)
      × (s.meas.ch_exht.avgsum + 1023 < 2 ^ 16)
      × (s.link.intk.temp < 1024)
      × (s.link.exht.temp < 1024)
Reach-inside r =
    let f = Reach-IsFine r in
    let l = f.link in
    let a = f.meas.intk in
    let b = f.meas.exht in
    (
      omega (arith, l.receiver.inside, l.receiver.room),
      omega (arith, l.tx_inside, l.tx_room),
      omega (arith, a.inside, a.room),
      omega (arith, b.inside, b.room),
      omega (arith, a.counted, a.bounded),
      omega (arith, b.counted, b.bounded),
      l.intk.temp_fits,
      l.exht.temp_fits,
    )

-- In every state of the unit from reset on in which no report is on the way: a report (a confirmation or
-- an indication) that is started and sent in calls of `do_tx` of which ten or more found the USART
-- ready reaches the daemon whole. The daemon takes the frame, sees the connection as good, and shows
-- exactly the periods and temperatures that the unit holds; the unit's other flags, which travel in the
-- same words, do not disturb them.
pub Reach-reports :
    {s : Plant} (mark : ℕ) (ps : List (Bool × Bool)) (d : Daemon)
    → Reach s
    → (mark ≡ mark_cnf) ⊎ (mark ≡ mark_ind)
    → s.link.tx_state ≡ tx_idle
    → 10 ≤ ready ps
    → let l = s.link in
      answer (got (drop (length l.sent) (transmits ps (start_tx mark l)).sent)) d
      ≡ record d { comm_ok = true; timeout_cnt = 0; shown = values l.intk l.exht ∷ d.shown }
Reach-reports {s} mark ps d r m idle n =
    let l = (Reach-IsFine r).link in report_lem mark ps s.link d m idle l.intk l.exht l.flags n

-- In every state of the unit from reset on: when it has heard nothing in two polls, more than 50 ms each,
-- and the daemon's frame comes then, the unit takes over the bypass and the levels of both fans that the
-- daemon asked for, is in communication, and its receiver is ready for the next frame. The bytes are
-- polled at any times; before the first byte and between the bytes there may be any number of polls
-- that find nothing, those between the bytes not more than 50 ms after the first byte.
pub Reach-obeys :
    {s : Plant} (t u t0 t1 t2 t3 : ℕ) (q0 q1 q2 q3 : List ℕ) (b : Bool) (p q : ℕ)
    → Reach s
    → timeout16 t s.link.t0_err (ms_ticks 50) ≡ true
    → timeout16 u t (ms_ticks 50) ≡ true
    → Within t0 q1
    → Within t0 q2
    → Within t0 q3
    → let f = control b p q in
      let w =
        hears t0 t1 t2 t3 q1 q2 q3
          (get_or f 0 0)
          (get_or f 1 0)
          (get_or f 2 0)
          (get_or f 3 0)
          (quiets q0 (do_rx u quiet (do_rx t quiet s.link))) in
      (w.outputs.bypass ≡ b)
      × (w.outputs.ccpr1l ≡ p)
      × (w.outputs.ccpr2l ≡ q)
      × (w.comm_state ≡ communicating)
      × (w.rx_state ≡ rx_reading)
      × (w.rx_idx ≡ 0)
unfolding do_rx
Reach-obeys {s} t u t0 t1 t2 t3 q0 q1 q2 q3 b p q r h k w1 w2 w3 =
    command_lem t u t0 t1 t2 t3 q0 q1 q2 q3 b p q s.link (Reach-IsFine r).link.receiver h k w1 w2 w3
