-- ===== src/Reku/Daemon.antt =====
-- The daemon's end of the line, bytd/src/Reku.cpp. The polls of the serial line, what the comparisons of
-- the two temperatures say and the fans' levels (`f2pwm8` of a floating-point percentage) are inputs; a
-- temperature is published as the value of the converter, from which `adc_temp` computes degrees.
use byt.Base.{
  ℕ, ◌+◌, ◌*◌, ◌%◌, ◌^◌, Bool, true, false, ◌&&◌, ◌||◌, Option, none, some, List, [], ◌∷◌, ◌++◌,
  ◌==◌, if◌then◌else◌, get_or, take, length, bit_and, bit_or,
}
use byt.Crc.{crc_from}
use byt.Reku.{VentCh, mark_mask, mark_cmd, mark_cnf, mark_ind, ctrl_bypass}

-- `check_crc` of bytd/src/data.cpp, whose table is the one of `crc_from`.
unfoldable pub check_crc : List ℕ → ℕ → Bool
unfolding crc_from
check_crc d crc = crc_from 0 d == crc

-- What `poll` and `read` give.
pub data Polled : Type 0 where
  poll_error poll_timeout other_events : Polled
  got : List ℕ → Polled

-- What is published: both channels, or NaN.
pub data Shown : Type 0 where
  values : VentCh → VentCh → Shown
  unknown : Shown

pub record Daemon : Type 0 where
  pub comm_ok : Bool
  pub timeout_cnt : ℕ
  pub bypass : Bool
  pub written : List (List ℕ)  -- newest first
  pub shown : List Shown  -- newest first
  pub stopped : Bool

-- The test of a frame in `readFrame`.
unfoldable pub is_valid : List ℕ → Bool
is_valid d =
    let mark = bit_and (get_or d 0 0) mark_mask in
    length d == 10
    && ((mark == mark_cnf || mark == mark_ind) && check_crc (take 9 d) (get_or d 9 0))

-- `readFrame`.
unfoldable pub read_frame : Polled → Daemon → Option (List ℕ) × Daemon
read_frame poll_error s = (none, s)
read_frame other_events s = (none, s)
read_frame poll_timeout s = (none, record s { timeout_cnt = (s.timeout_cnt + 1) % 2 ^ 32 })
read_frame (got d) s = if is_valid d then (some d, record s { timeout_cnt = 0 }) else (none, s)

-- A channel of `RekuTx` at a place of the frame, its temperature masked.
unfoldable pub channel_at : List ℕ → ℕ → VentCh
channel_at d i = record {
  period = get_or d i 0 + get_or d (i + 1) 0 * 256;
  temp = bit_and (get_or d (i + 2) 0 + get_or d (i + 3) 0 * 256) 0x03FF;
}

-- `onNewData`.
unfoldable pub on_new_data : List ℕ → Daemon → Daemon
unfolding channel_at
on_new_data d s = record s { shown = values (channel_at d 1) (channel_at d 5) ∷ s.shown }

-- `onFailure`.
unfoldable pub on_failure : Daemon → Daemon
on_failure s = record s { shown = unknown ∷ s.shown }

-- The summer mode: whether the exhaust is warmer, or colder, by more than 0.1.
unfoldable pub next_bypass : Bool → Bool → Bool → Bool → Bool
next_bypass letny_rezim warmer colder bypass =
    if letny_rezim then (if warmer then true else if colder then false else bypass) else bypass

-- The frame `control`.
unfoldable pub control : Bool → ℕ → ℕ → List ℕ
unfolding crc_from
control bypass pwm8 pwm8_exht =
    let d = (if bypass then bit_or mark_cmd ctrl_bypass else mark_cmd) ∷ pwm8 ∷ pwm8_exht ∷ [] in
    d ++ crc_from 0 d ∷ []

-- The inputs of one round of the thread's loop.
pub record Round : Type 0 where
  pub first : Polled
  pub second : Polled
  pub pwm8 : ℕ
  pub pwm8_exht : ℕ
  pub letny_rezim : Bool
  pub warmer : Bool
  pub colder : Bool
  pub write_ok : Bool

-- A frame that has been read, or nothing.
unfoldable pub take_in : Option (List ℕ) → Daemon → Daemon
unfolding on_new_data
take_in none s = s
take_in (some d) s = on_new_data d s

-- The part of a round that is made when there was a connection.
unfoldable pub command : Round → Daemon → Daemon
command i s =
    let (d, t) = read_frame i.first s in
    let u = take_in d t in
    let b = next_bypass i.letny_rezim i.warmer i.colder u.bypass in
    if i.write_ok
    then record u { bypass = b; written = control b i.pwm8 i.pwm8_exht ∷ u.written }
    else record (on_failure (record u { bypass = b })) { stopped = true }

-- What follows `readFrame`, by its result and by whether there was a connection.
unfoldable pub settle : Bool → Option (List ℕ) × Daemon → Daemon
settle was_ok (some d, s) = on_new_data d (record s { comm_ok = true })
settle true (none, s) = on_failure (record s { comm_ok = false })
settle false (none, s) = record s { comm_ok = false }

-- `commOk = readFrame(...)` and what follows.
unfoldable pub answer : Polled → Daemon → Daemon
answer p s = settle s.comm_ok (read_frame p s)

-- One round.
unfoldable pub round : Round → Daemon → Daemon
round i s =
    let t = if s.comm_ok then command i s else s in if t.stopped then t else answer i.second t
