-- ===== src/Reku/Exchange.antt =====
-- Both ends of the line together: rekuperacia_fw/main.c and bytd/src/Reku.cpp.
use byt.Base.{
  ℕ, zero, suc, ◌+◌, ◌*◌, ◌/◌, ◌%◌, ◌^◌, ◌≤◌, ◌<◌, ◌≡◌, ==_iff, ◌⊎◌, inl, inr, refl, ap, ap₂, ◌∙◌,
  Bool, true, false, some, List, [], ◌∷◌, ◌++◌, if◌then◌else◌, get_or, length, take, drop, bit_or,
  bit_and, bit_and-byte_le, bit_or_comm, bit_or_fields, low_bits_lem, arith,
}
use byt.Crc.{crc_from}
use byt.Reku.{
  Reku, VentCh, CommState, no_comm, communicating, comm_lost, comm_bits, rx_reading, tx_idle,
  mark_mask, mark_cnf, mark_ind, ms_ticks, timeout16, report, start_tx, update_control_pvs,
  on_quiet,
}
use byt.Reku.Polls.{Within, quiets, hears, quiets-IsReady, hears-feed}
use byt.Reku.Receive.{Inv, IsReady, feed, feed_lem, silence-IsReady}
use byt.Reku.Transmit.{transmits, ready, frame, transmits_lem}
use byt.Reku.Daemon.{
  got, Daemon, is_valid, check_crc, read_frame, channel_at, control, answer, settle, values,
  on_new_data,
}

-- The flags above the ten bits of a temperature do not reach it.
masked_temp :
    (t q : ℕ)
    → t < 1024
    → q < 256
    → let v = bit_or t (q * 2 ^ 10) in bit_and (v % 256 + v / 256 % 256 * 256) 0x03FF ≡ t
masked_temp t q ht hq =
    let v = bit_or t (q * 2 ^ 10) in
    let sum : v ≡ q * 2 ^ 10 + t =
      bit_or_comm 18 t (q * 2 ^ 10) (omega arith) (omega arith)
      ∙ bit_or_fields 10 q t (omega arith) in
    low_bits_lem 10 (v % 256 + v / 256 % 256 * 256) ∙ omega (arith, sum)

mark_kept :
    (mark : ℕ) (c : CommState)
    → (mark ≡ mark_cnf) ⊎ (mark ≡ mark_ind)
    → bit_and (bit_or mark (comm_bits c)) mark_mask ≡ mark
mark_kept mark no_comm (inl e) = rw e refl
mark_kept mark communicating (inl e) = rw e refl
mark_kept mark comm_lost (inl e) = rw e refl
mark_kept mark no_comm (inr e) = rw e refl
mark_kept mark communicating (inr e) = rw e refl
mark_kept mark comm_lost (inr e) = rw e refl

check_crc_self : (d : List ℕ) → check_crc d (crc_from 0 d) ≡ true
unfolding check_crc
check_crc_self d = (==_iff _ _).1 refl

frame-is_valid :
    (mark : ℕ) (s : Reku) → (mark ≡ mark_cnf) ⊎ (mark ≡ mark_ind) → is_valid (frame mark s) ≡ true
unfolding is_valid report
frame-is_valid mark s h =
    ground (arith, mark_kept mark s.comm_state h, check_crc_self (report mark s))

bytes16_lem : (v : ℕ) → v < 2 ^ 16 → v % 256 + v / 256 % 256 * 256 ≡ v
bytes16_lem v h = omega arith

-- What a channel of the unit may hold.
pub record IsMeasured (c : VentCh) : Type 0 where
  pub period_fits : c.period < 2 ^ 16
  pub temp_fits : c.temp < 1024

frame-intk :
    (mark : ℕ) (s : Reku)
    → IsMeasured s.intk
    → s.reset_condition_flags < 256
    → channel_at (frame mark s) 1 ≡ s.intk
unfolding channel_at report
frame-intk mark s h f = ground (
  arith,
  bytes16_lem s.intk.period,
  masked_temp s.intk.temp (bit_and s.reset_condition_flags 0x1F),
  bit_and-byte_le s.reset_condition_flags 0x1F,
)

frame-exht :
    (mark : ℕ) (s : Reku)
    → IsMeasured s.exht
    → s.reset_condition_flags < 256
    → channel_at (frame mark s) 5 ≡ s.exht
unfolding channel_at report
frame-exht mark s h f =
    ground
      (arith, bytes16_lem s.exht.period, masked_temp s.exht.temp (s.reset_condition_flags / 2 ^ 6))

drop_append : (xs ys : List ℕ) → drop (length xs) (xs ++ ys) ≡ ys
drop_append [] ys = refl
drop_append (x ∷ xs) ys = drop_append xs ys

take_all : (n : ℕ) (xs : List ℕ) → length xs ≤ n → take n xs ≡ xs
take_all zero [] h = refl
take_all (suc n) [] h = refl
take_all zero (x ∷ xs) h = absurd (omega arith)
take_all (suc n) (x ∷ xs) h = ap (λ q. x ∷ q) (take_all n xs (omega arith))

length-frame : (mark : ℕ) (s : Reku) → length (frame mark s) ≡ 10
unfolding report
length-frame mark s = refl

read_valid :
    (f : List ℕ) (d : Daemon)
    → is_valid f ≡ true
    → read_frame (got f) d ≡ (some f, record d { timeout_cnt = 0 })
unfolding read_frame
read_valid f d h = rw h refl

answer_valid :
    (f : List ℕ) (d : Daemon)
    → is_valid f ≡ true
    → answer (got f) d ≡ record d {
      comm_ok = true;
      timeout_cnt = 0;
      shown = values (channel_at f 1) (channel_at f 5) ∷ d.shown;
    }
unfolding answer settle on_new_data
answer_valid f d h = ap (settle d.comm_ok) (read_valid f d h)

-- A report of a unit whose channels hold what fits the frame reaches the daemon whole.
pub report_lem :
    (mark : ℕ) (ps : List (Bool × Bool)) (s : Reku) (d : Daemon)
    → (mark ≡ mark_cnf) ⊎ (mark ≡ mark_ind)
    → s.tx_state ≡ tx_idle
    → IsMeasured s.intk
    → IsMeasured s.exht
    → s.reset_condition_flags < 256
    → 10 ≤ ready ps
    → answer (got (drop (length s.sent) (transmits ps (start_tx mark s)).sent)) d
      ≡ record d { comm_ok = true; timeout_cnt = 0; shown = values s.intk s.exht ∷ d.shown }
report_lem mark ps s d m idle hi he hf n =
    let wire : drop (length s.sent) (transmits ps (start_tx mark s)).sent ≡ frame mark s =
      ap (drop (length s.sent)) (transmits_lem mark ps s idle)
      ∙ drop_append s.sent (take (ready ps) (frame mark s))
      ∙ take_all (ready ps) (frame mark s) (omega (arith, length-frame mark s)) in
    ap (λ f. answer (got f) d) wire
    ∙ answer_valid (frame mark s) d (frame-is_valid mark s m)
    ∙ ap₂ (λ a b. record d { comm_ok = true; timeout_cnt = 0; shown = values a b ∷ d.shown })
        (frame-intk mark s hi hf) (frame-exht mark s he hf)

obeyed :
    (t0 t1 t2 t3 c p q : ℕ) (b : Bool) (s : Reku)
    → c ≡ (if b then 85 else 84)
    → IsReady s
    → let w = feed t0 t1 t2 t3 c p q (crc_from 0 (c ∷ p ∷ q ∷ [])) s in
      (w.outputs.bypass ≡ b)
      × (w.outputs.ccpr1l ≡ p)
      × (w.outputs.ccpr2l ≡ q)
      × (w.comm_state ≡ communicating)
      × (w.rx_state ≡ rx_reading)
      × (w.rx_idx ≡ 0)
unfolding update_control_pvs
obeyed t0 t1 t2 t3 c p q true s e r =
    let k = crc_from 0 (c ∷ p ∷ q ∷ []) in
    ground (arith, feed_lem t0 t1 t2 t3 c p q k s r (rw e refl), (==_iff k k).1 refl)
obeyed t0 t1 t2 t3 c p q false s e r =
    let k = crc_from 0 (c ∷ p ∷ q ∷ []) in
    ground (arith, feed_lem t0 t1 t2 t3 c p q k s r (rw e refl), (==_iff k k).1 refl)

-- The daemon's frame is obeyed by a unit that has been silent for long enough.
pub command_lem :
    (t u t0 t1 t2 t3 : ℕ) (q0 q1 q2 q3 : List ℕ) (b : Bool) (p q : ℕ) (s : Reku)
    → Inv s
    → timeout16 t s.t0_err (ms_ticks 50) ≡ true
    → timeout16 u t (ms_ticks 50) ≡ true
    → Within t0 q1
    → Within t0 q2
    → Within t0 q3
    → let f = control b p q in
      let w =
        hears t0 t1 t2 t3 q1 q2 q3
          (get_or f 0 0)
          (get_or f 1 0)
          (get_or f 2 0)
          (get_or f 3 0)
          (quiets q0 (on_quiet u (on_quiet t s))) in
      (w.outputs.bypass ≡ b)
      × (w.outputs.ccpr1l ≡ p)
      × (w.outputs.ccpr2l ≡ q)
      × (w.comm_state ≡ communicating)
      × (w.rx_state ≡ rx_reading)
      × (w.rx_idx ≡ 0)
unfolding control
command_lem t u t0 t1 t2 t3 q0 q1 q2 q3 true p q s h quiet1 quiet2 w1 w2 w3 =
    let s' = quiets q0 (on_quiet u (on_quiet t s)) in
    let r = quiets-IsReady q0 (on_quiet u (on_quiet t s)) (silence-IsReady t u s h quiet1 quiet2) in
    rw (hears-feed t0 t1 t2 t3 q1 q2 q3 85 p q (crc_from 0 (85 ∷ p ∷ q ∷ [])) s' r refl w1 w2 w3)
      (obeyed t0 t1 t2 t3 85 p q true s' refl r)
command_lem t u t0 t1 t2 t3 q0 q1 q2 q3 false p q s h quiet1 quiet2 w1 w2 w3 =
    let s' = quiets q0 (on_quiet u (on_quiet t s)) in
    let r = quiets-IsReady q0 (on_quiet u (on_quiet t s)) (silence-IsReady t u s h quiet1 quiet2) in
    rw (hears-feed t0 t1 t2 t3 q1 q2 q3 84 p q (crc_from 0 (84 ∷ p ∷ q ∷ [])) s' r refl w1 w2 w3)
      (obeyed t0 t1 t2 t3 84 p q false s' refl r)
