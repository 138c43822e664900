-- ===== src/Reku/Safety.antt =====
-- What always holds in the loop of rekuperacia_fw/main.c.
use native.Mathlib.Nat.{div-le_self}
use byt.Base.{
  ℕ, zero, suc, ◌+◌, ◌-◌, ◌*◌, ◌/◌, ◌%◌, ◌^◌, ◌≤◌, ◌<◌, ◌≡◌, ◌⊎◌, refl, ◌∙◌, Bool, true, false,
  List, [], ◌∷◌, ltb, ◌==◌, if◌then◌else◌, length, length-set, get_or, set, Bool-cases, inl, inr,
  arith,
}
use byt.Reku.{Reku, do_tx}
use byt.Reku.Receive.{Inv}
use byt.Reku.Exchange.{IsMeasured}
use byt.Reku.Median.{AllLe, bubble_le, length-bubble_sort}
use byt.Reku.Measure.{
  Samples, Meas, RekuCh, samples, set_samples, set_temp, add_median, add_sample, do_meas_temp,
  Tacho, tacho_round, bubble_sort, sampling, converting, before_next, AdcState, timeout8,
}

-- The samples of a channel: the index is inside the buffer and the sum fits 16 bits.
pub record IsSound (c : Samples) : Type 0 where
  pub room : length c.medbuf ≡ 5
  pub inside : c.medidx < 5
  pub values : AllLe c.medbuf 1023
  pub counted : c.avgcnt < 64
  pub bounded : c.avgsum ≤ c.avgcnt * 1023

get_or-le : (xs : List ℕ) (i m : ℕ) → AllLe xs m → get_or xs i 0 ≤ m
get_or-le [] i m h = omega arith
get_or-le (x ∷ xs) zero m h = h.0
get_or-le (x ∷ xs) (suc i) m h = get_or-le xs i m (h.1)

set-AllLe : (xs : List ℕ) (i v m : ℕ) → v ≤ m → AllLe xs m → AllLe (set xs i v) m
set-AllLe [] i v m h k = tt
set-AllLe (x ∷ xs) zero v m h k = (h, k.1)
set-AllLe (x ∷ xs) (suc i) v m h k = (k.0, set-AllLe xs i v m h (k.1))

pub record AreSound (m : Meas) : Type 0 where
  pub intk : IsSound m.ch_intk
  pub exht : IsSound m.ch_exht

-- The transmitter and the receiver inside their buffers, and values that fit a report.
pub record IsGood (s : Reku) : Type 0 where
  pub receiver : Inv s
  pub tx_inside : s.tx_idx ≤ 10
  pub tx_room : length s.reku_tx ≡ 10
  pub intk : IsMeasured s.intk
  pub exht : IsMeasured s.exht
  pub flags : s.reset_condition_flags < 256

samples-IsSound : (c : RekuCh) (m : Meas) → AreSound m → IsSound (samples c m)
unfolding samples
samples-IsSound RekuCh.intk m h = h.intk
samples-IsSound RekuCh.exht m h = h.exht

set_samples-AreSound :
    (c : RekuCh) (d : Samples) (m : Meas) → IsSound d → AreSound m → AreSound (set_samples c d m)
unfolding set_samples
set_samples-AreSound RekuCh.intk d m k h = record { intk = k; exht = h.exht }
set_samples-AreSound RekuCh.exht d m k h = record { intk = h.intk; exht = k }

set_temp-IsGood : (c : RekuCh) (v : ℕ) (s : Reku) → v < 1024 → IsGood s → IsGood (set_temp c v s)
unfolding set_temp
set_temp-IsGood RekuCh.intk v s h g = ground (arith)
set_temp-IsGood RekuCh.exht v s h g = ground (arith)

abbrev added : ℕ → Samples → Samples
added val c = record c { avgcnt = (c.avgcnt + 1) % 256; avgsum = (c.avgsum + val) % 2 ^ 16 }

abbrev restarted : Samples → Samples
restarted c = record c { avgcnt = 0; avgsum = 0 }

module _ (val : ℕ) (c : Samples) (h : IsSound c) (v : val ≤ 1023) where
  restarted-IsSound : IsSound (restarted (added val c))
  restarted-IsSound = ground (arith)

  added-IsSound : ((added val c).avgcnt == 64) ≡ false → IsSound (added val c)
  added-IsSound e = ground (arith)

  mean_fits : (added val c).avgsum / 64 < 1024
  mean_fits = ground (arith)

  -- No sum overflows and no temperature leaves ten bits.
  module _ (m : Meas) (s : Reku) (k : AreSound m) (g : IsGood s) where
    add_median-Sound : AreSound (add_median val c (m, s)).0 × IsGood (add_median val c (m, s)).1
    unfolding add_median
    add_median-Sound =
        let few : ltb c.avgcnt 64 ≡ true = ground (arith) in
        elim (Bool-cases ((added val c).avgcnt == 64)) [
          | inl e ↦
              let u =
                set_samples-AreSound m.cur_ch (restarted (added val c)) m restarted-IsSound k in
              rw (few, e)
                (
                  record { intk = u.intk; exht = u.exht },
                  set_temp-IsGood m.cur_ch ((added val c).avgsum / 64) s mean_fits g,
                )
          | inr e ↦
              rw (few, e) (set_samples-AreSound m.cur_ch (added val c) m (added-IsSound e) k, g)
        ]

abbrev pub BothFine : Meas × Reku → Type 0
BothFine p = AreSound (p.0) × IsGood (p.1)

sorted-IsSound :
    (c : Samples) (buf : List ℕ)
    → IsSound c
    → length buf ≡ 5
    → AllLe buf 1023
    → IsSound (record c { medbuf = bubble_sort buf; medidx = 0 })
sorted-IsSound c buf h n a = record {
  room = length-bubble_sort buf ∙ n;
  inside = omega arith;
  values = bubble_le buf 1023 a;
  counted = h.counted;
  bounded = h.bounded;
}

add_sample-Fine :
    (val : ℕ) (m : Meas) (s : Reku)
    → val ≤ 1023
    → AreSound m
    → IsGood s
    → BothFine (add_sample val (m, s))
unfolding add_sample
add_sample-Fine val m s v k g =
    let c = samples m.cur_ch m in
    let h = samples-IsSound m.cur_ch m k in
    let buf = set c.medbuf c.medidx val in
    let n : length buf ≡ 5 = length-set c.medbuf c.medidx val ∙ h.room in
    let a = set-AllLe c.medbuf c.medidx val 1023 v h.values in
    let inside : ltb c.medidx 5 ≡ true = ground (arith, h.inside) in
    elim (Bool-cases (c.medidx + 1 == 5)) [
      | inl e ↦
          let d = record c { medbuf = bubble_sort buf; medidx = 0 } in
          rw (inside, e)
            (add_median-Sound (get_or (bubble_sort buf) 2 0) d (sorted-IsSound c buf h n a)
              (get_or-le (bubble_sort buf) 2 1023 (bubble_le buf 1023 a)) m s k g)
      | inr e ↦
          let d = record c { medbuf = buf; medidx = c.medidx + 1 } in
          let sound : IsSound d = record {
            room = n;
            inside = ground (arith, h.inside, e);
            values = a;
            counted = h.counted;
            bounded = h.bounded;
          } in
          rw (inside, e) (set_samples-AreSound m.cur_ch d m sound k, g)
    ]

state_cases : (x : AdcState) → (x ≡ sampling) ⊎ ((x ≡ converting) ⊎ (x ≡ before_next))
state_cases sampling = inl refl
state_cases converting = inr (inl refl)
state_cases before_next = inr (inr refl)

either : (b : Bool) (p q : Meas × Reku) → BothFine p → BothFine q → BothFine (if b then p else q)
either true p q h k = h
either false p q h k = k

pub do_meas_temp-Fine :
    (tmr2 : ℕ) (done : Bool) (adres : ℕ) (m : Meas) (s : Reku)
    → adres ≤ 1023
    → AreSound m
    → IsGood s
    → BothFine (do_meas_temp tmr2 done adres (m, s))
unfolding do_meas_temp
do_meas_temp-Fine tmr2 done adres m s v k g =
    let f =
      add_sample-Fine adres (record m { t0 = tmr2 }) s v (record { intk = k.intk; exht = k.exht })
        g in
    let same : BothFine (m, s) = (k, g) in
    elim (state_cases m.state) [
      | inl e ↦
          rw (e, do_meas_temp)
            (either (timeout8 tmr2 m.t0 100) (record m { state = converting }, s) (m, s)
              (record { intk = k.intk; exht = k.exht }, g) same)
      | inr (inl e) ↦
          let n = add_sample adres (record m { t0 = tmr2 }, s) in
          rw (e, do_meas_temp)
            (either done (record n.0 { state = before_next }, n.1) (m, s)
              (record { intk = f.0.intk; exht = f.0.exht }, f.1) same)
      | inr (inr e) ↦
          rw (e, do_meas_temp)
            (either (timeout8 tmr2 m.t0 16)
              (record m { state = sampling; t0 = tmr2; chs = m.cur_ch }, s) (m, s)
              (record { intk = k.intk; exht = k.exht }, g) same)
    ]

pub tacho-fits :
    (tmr0 : ℕ) (b : Bool) (t : Tacho) (period : ℕ)
    → period < 2 ^ 16
    → (tacho_round tmr0 b t period).1 < 2 ^ 16
unfolding tacho_round
tacho-fits tmr0 b t period h =
    ground (arith, div-le_self ((tmr0 + 2 ^ 16 - t.t0) % 2 ^ 16) ((t.cnt + 1) % 256))

pub do_tx-IsGood : (a b : Bool) (s : Reku) → IsGood s → IsGood (do_tx a b s)
unfolding do_tx
do_tx-IsGood a b s g = ground (arith)
