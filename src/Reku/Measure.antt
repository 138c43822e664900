-- ===== src/Reku/Measure.antt =====
-- The temperatures and the speeds of the fans, rekuperacia_fw/main.c: the median of five samples, the
-- mean of 64 medians, and the periods of the tachometers. The timers, the converter and the port are
-- inputs of each call.
use byt.Base.{
  ℕ, zero, suc, ◌+◌, ◌-◌, ◌*◌, ◌/◌, ◌%◌, ◌^◌, Bool, false, not, ◌||◌, List, [], ◌∷◌, ltb, ◌==◌,
  if◌then◌else◌, get_or, set, bit_and, bit_xor,
}
use byt.Reku.{Reku, ms_ticks, timeout16}

-- `RekuCh`.
pub data RekuCh : Type 0 where
  intk exht : RekuCh

-- `changeCh`.
unfoldable pub change_ch : RekuCh → RekuCh
change_ch intk = exht
change_ch exht = intk

-- One inner loop of `bubbleSort`, with `n` comparisons, and whether it has swapped.
unfoldable pub pass : ℕ → List ℕ → List ℕ × Bool
pass zero xs = (xs, false)
pass (suc n) [] = ([], false)
pass (suc n) (x ∷ []) = (x ∷ [], false)
pass (suc n) (x ∷ y ∷ r) =
    let swapped = ltb y x in
    let (q, w) = pass n ((if swapped then x else y) ∷ r) in
    ((if swapped then y else x) ∷ q, swapped || w)

-- The outer loop, from the inner loop with `n` comparisons on.
unfoldable pub bubble : ℕ → List ℕ → List ℕ
unfolding pass
bubble zero xs = xs
bubble (suc n) xs = let (q, w) = pass (suc n) xs in let rest = bubble n q in if w then rest else q

abbrev pub medbufsize : ℕ
medbufsize = 5

-- `bubbleSort` of the buffer, which stays sorted.
unfoldable pub bubble_sort : List ℕ → List ℕ
unfolding bubble
bubble_sort xs = bubble (medbufsize - 1) xs

abbrev pub avgcount : ℕ
avgcount = 64

-- The samples of a channel.
pub record Samples : Type 0 where
  pub medbuf : List ℕ
  pub medidx : ℕ
  pub avgsum : ℕ
  pub avgcnt : ℕ

pub data AdcState : Type 0 where
  sampling converting before_next : AdcState

-- `measCtx`, and the channel that the converter is set to.
pub record Meas : Type 0 where
  pub cur_ch : RekuCh
  pub state : AdcState
  pub t0 : ℕ
  pub ch_intk : Samples
  pub ch_exht : Samples
  pub chs : RekuCh

unfoldable pub samples : RekuCh → Meas → Samples
samples intk m = m.ch_intk
samples exht m = m.ch_exht

unfoldable pub set_samples : RekuCh → Samples → Meas → Meas
set_samples intk c m = record m { ch_intk = c }
set_samples exht c m = record m { ch_exht = c }

-- `rekuCh[c].temp = v`.
unfoldable pub set_temp : RekuCh → ℕ → Reku → Reku
set_temp intk v s = record s { intk = record s.intk { temp = v } }
set_temp exht v s = record s { exht = record s.exht { temp = v } }

-- A median joins the mean; the mean of 64 is the temperature, and the other channel is next.
unfoldable pub add_median : ℕ → Samples → Meas × Reku → Meas × Reku
unfolding change_ch set_samples set_temp
add_median val c (m, s) =
    let t = record c { avgcnt = (c.avgcnt + 1) % 256; avgsum = (c.avgsum + val) % 2 ^ 16 } in
    if ltb c.avgcnt avgcount
    then (if t.avgcnt == avgcount
        then (
          record (set_samples m.cur_ch (record t { avgcnt = 0; avgsum = 0 }) m) {
            cur_ch = change_ch m.cur_ch;
          },
          set_temp m.cur_ch (t.avgsum / avgcount) s,
        )
        else (set_samples m.cur_ch t m, s))
    else (set_samples m.cur_ch (record c { avgcnt = (c.avgcnt + 1) % 256 }) m, s)

-- A sample that has been converted.
unfoldable pub add_sample : ℕ → Meas × Reku → Meas × Reku
unfolding samples bubble_sort add_median set_samples
add_sample val (m, s) =
    let c = samples m.cur_ch m in
    let buf = set c.medbuf c.medidx val in
    let sorted = bubble_sort buf in
    if ltb c.medidx medbufsize
    then (if c.medidx + 1 == medbufsize
        then add_median (get_or sorted 2 0) (record c { medbuf = sorted; medidx = 0 }) (m, s)
        else (set_samples m.cur_ch (record c { medbuf = buf; medidx = c.medidx + 1 }) m, s))
    else (m, s)

-- `US2TICK`.
abbrev pub us_ticks : ℕ → ℕ
us_ticks us = us * 4

-- `timeout8`, with what TMR2 reads.
unfoldable pub timeout8 : ℕ → ℕ → ℕ → Bool
timeout8 tmr2 t0 delay = let t2 = if ltb tmr2 t0 then tmr2 + 256 else tmr2 in ltb delay (t2 - t0)

-- `do_meas_temp`, with TMR2, whether the conversion is over, and its result.
unfoldable pub do_meas_temp : ℕ → Bool → ℕ → Meas × Reku → Meas × Reku
unfolding add_sample timeout8
do_meas_temp tmr2 done adres (m, s) = elim m.state [
  | sampling ↦
      if timeout8 tmr2 m.t0 (us_ticks 25) then (record m { state = converting }, s) else (m, s)
  | converting ↦
      if done
      then (let (n, t) = add_sample adres (record m { t0 = tmr2 }, s) in
          (record n { state = before_next }, t))
      else (m, s)
  | before_next ↦
      if timeout8 tmr2 m.t0 (us_ticks 4)
      then (record m { state = sampling; t0 = tmr2; chs = m.cur_ch }, s)
      else (m, s)
]

-- `tacho`.
pub record Tacho : Type 0 where
  pub cnt : ℕ
  pub t0 : ℕ

-- The body of the loop of `do_tacho` for a channel: whether its input fell; the period.
unfoldable pub tacho_round : ℕ → Bool → Tacho → ℕ → Tacho × ℕ
tacho_round tmr0 fell t period =
    let cnt' = (t.cnt + 1) % 256 in
    if fell
    then (if timeout16 tmr0 t.t0 (ms_ticks 450)
        then (record { cnt = 0; t0 = tmr0 }, (tmr0 + 2 ^ 16 - t.t0) % 2 ^ 16 / cnt')
        else (record t { cnt = cnt' }, period))
    else if timeout16 tmr0 t.t0 (ms_ticks 900)
    then (record { cnt = 0; t0 = tmr0 }, 0)
    else (t, period)

-- `diff & ~tacho_bits & tacho_masks[ch]`, with the bits before and now.
unfoldable pub fell : ℕ → ℕ → ℕ → Bool
fell before now mask = not (bit_and (bit_and (bit_xor before now) (255 - now)) mask == 0)
