-- ===== src/Ow/Timing.antt =====
-- The timer of avr/fw/ow_sm.cpp: what a `SCHEDULE_TIMEOUT` of some microseconds counts.
use byt.Base.{ℕ, ◌+◌, ◌-◌, ◌*◌, ◌≤◌, ◌<◌, ◌≡◌, if◌then◌else◌, ◌==◌, arith}
use byt.Ow.Bus.{clockdiv, ticks}

-- Processor cycles to one count of the timer, as the comments of `clockdiv` say: no prescaling,
-- /8 and /64. The code takes a microsecond for 8 cycles.
abbrev pub prescale : ℕ → ℕ
prescale d = if d == 1 then 1 else if d == 2 then 8 else 64

-- For every timeout from 1 to 2039 microseconds the start value is not 0, a prescaler is chosen, and
-- the counter overflows after the cycles of the timeout, rounded down to whole counts.
pub ticks_exact :
    (us : ℕ)
    → 0 < us
    → us < 2040
    → let count = 256 - ticks us in
      let cycles = prescale (clockdiv us) in
      (0 < ticks us)
      × (0 < clockdiv us)
      × (count * cycles ≤ 8 * us)
      × (8 * us < (count + 1) * cycles)
unfolding clockdiv ticks
ticks_exact us h k = ground arith

-- A longer timeout would switch the timer off.
pub clockdiv_too_long : (us : ℕ) → 2040 ≤ us → clockdiv us ≡ 0
unfolding clockdiv
clockdiv_too_long us h = ground arith
