-- ===== src/Clock.antt =====
-- avr/fw/clock.h: the coarse clock, the high byte of the timer of the CAN controller, which steps
-- every 65.536 ms. `now` is what `CANTIMH` reads.
use byt.Base.{ℕ, ◌+◌, ◌-◌, ◌*◌, ◌/◌, ◌%◌, ◌<◌, ◌≡◌, ◌↔◌, Bool, true, ltb, arith}

-- `durMs<ms>`: the quotient is exact in a `float` for the durations in use and is cut to an integer.
unfoldable pub dur_ms : ℕ → ℕ
dur_ms ms = ms * 1000 / 65536

unfoldable pub is_timeout : ℕ → ℕ → ℕ → Bool
is_timeout now t0 dur = ltb dur ((now + 256 - t0) % 256)

-- A timeout whose start was `steps` clock steps ago, less than a full turn of 256, is seen exactly
-- when more steps than its duration have passed, across a wrap of the clock too.
pub is_timeout_iff :
    (t0 steps dur : ℕ)
    → t0 < 256
    → steps < 256
    → (is_timeout ((t0 + steps) % 256) t0 dur ≡ true) ↔ (dur < steps)
unfolding is_timeout
is_timeout_iff t0 steps dur h k = ground arith

-- When a timeout of some milliseconds is seen, more than those milliseconds have passed: each
-- of the clock steps counted takes 65536 microseconds, and the first may have been a part only.
pub dur_ms-enough : (ms steps : ℕ) → dur_ms ms < steps → ms * 1000 < steps * 65536
unfolding dur_ms
dur_ms-enough ms steps h = omega arith
