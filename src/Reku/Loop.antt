-- ===== src/Reku/Loop.antt =====
-- The main loop of rekuperacia_fw/main.c over its four parts.
use byt.Base.{ℕ, ◌^◌, Bool, true, false, [], replicate, bit_or, if◌then◌else◌, bit_and, ◌==◌}
use byt.Reku.{
  Reku, no_comm, tx_idle, rx_reading, duty_low, mark_ind, start_tx, Incoming, do_tx, do_rx,
}
use byt.Reku.Measure.{RekuCh, Samples, Meas, sampling, do_meas_temp, Tacho, tacho_round, fell}

-- All static variables of the unit.
pub record Plant : Type 0 where
  pub meas : Meas
  pub link : Reku
  pub tacho_bits : ℕ
  pub tacho_intk : Tacho
  pub tacho_exht : Tacho

-- What one round of the loop reads.
pub record Readings : Type 0 where
  pub tmr0 : ℕ
  pub tmr2 : ℕ
  pub adc_done : Bool
  pub adres : ℕ
  pub portb : ℕ
  pub tx1if : Bool
  pub trmt : Bool
  pub incoming : Incoming

-- `do_tacho`.
unfoldable pub do_tacho : ℕ → ℕ → Plant → Plant
unfolding tacho_round
do_tacho tmr0 portb s =
    let (a, intk) =
      tacho_round tmr0 (fell s.tacho_bits portb (2 ^ 5)) s.tacho_intk s.link.intk.period in
    let (b, exht) =
      tacho_round tmr0 (fell s.tacho_bits portb (2 ^ 4)) s.tacho_exht s.link.exht.period in
    record s {
      tacho_bits = portb;
      tacho_intk = a;
      tacho_exht = b;
      link = record s.link {
        intk = record s.link.intk { period = intk };
        exht = record s.link.exht { period = exht };
      };
    }

-- `do_meas_temp` on the whole.
unfoldable pub do_measure : Readings → Plant → Plant
unfolding do_meas_temp
do_measure i s =
    let (m, l) = do_meas_temp i.tmr2 i.adc_done i.adres (s.meas, s.link) in
    record s { meas = m; link = l }

-- One round of `main`.
unfoldable pub round : Readings → Plant → Plant
unfolding do_measure do_tacho do_tx do_rx
round i s =
    let t = do_tacho i.tmr0 i.portb (do_measure i s) in
    record t { link = do_rx i.tmr0 i.incoming (do_tx i.tx1if i.trmt t.link) }

abbrev no_samples : Samples
no_samples = record { medbuf = replicate 5 0; medidx = 0; avgsum = 0; avgcnt = 0 }

-- `init`: the flags of the reset, the configuration of the PWM channels and what TMR2 reads.
unfoldable pub init : ℕ → ℕ → Plant
init flags tmr2 =
    let control : ℕ = bit_or duty_low 0xC in
    record {
      meas = record {
        cur_ch = RekuCh.intk;
        state = sampling;
        t0 = tmr2;
        ch_intk = no_samples;
        ch_exht = no_samples;
        chs = RekuCh.intk;
      };
      tacho_bits = 0;
      tacho_intk = record { cnt = 0; t0 = 0 };
      tacho_exht = record { cnt = 0; t0 = 0 };
      link = record {
        outputs = record {
          bypass = false;
          ccp1con = control;
          ccp2con = control;
          ccpr1l = 64;
          ccpr2l = 64;
        };
        intk = record { period = 0; temp = 0 };
        exht = record { period = 0; temp = 0 };
        comm_state = no_comm;
        tx_state = tx_idle;
        tx_idx = 0;
        reku_tx = replicate 10 0;
        rx_state = rx_reading;
        rx_idx = 0;
        t0_err = 0;
        t0_comm = 0;
        reku_rx = replicate 4 0;
        reset_condition_flags = flags;
        cren = true;
        led = 0;
        sent = [];
      };
    }

-- `main` before its loop: after a power-on reset an indication is sent.
unfoldable pub power_up : ℕ → ℕ → Plant
unfolding init start_tx
power_up flags tmr2 =
    let s = init flags tmr2 in
    if bit_and flags 0x9F == 0x1C then record s { link = start_tx mark_ind s.link } else s
