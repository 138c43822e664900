-- ===== src/Ow/Search.antt =====
-- A step of the search for devices: `search` and `do_search` of avr/fw/ow_sm.cpp.
use byt.Base.{
  ℕ, ◌+◌, ◌*◌, Bool, true, false, ◌&&◌, List, [], ◌∷◌, get_or, to_nat, ◌==◌, if◌then◌else◌, bit_at,
}
use byt.Ow.Write.{bit_wave}
use byt.Ow.Bus.{
  Act, pull, release, power, timer_off, wait, idle, Response, search_result0, search_result1,
  search_result00, search_result11, StrongPower, Ow,
}
use byt.Ow.Ops.{run, search, is_idle, is_keep}

-- The responses of a search, numbered.
abbrev pub code : Response → ℕ
code search_result00 = 0
code search_result0 = 1
code search_result1 = 2
code search_result11 = 3
code _ = 9

-- The number of the response, 4 more if bit 2 of the buffer is a 1, and 100 if the master has not come
-- to rest.
abbrev pub outcome : Ow → ℕ
outcome s =
    let base = code s.response_code + 4 * bit_at (get_or s.ow_data 0 0) 2 in
    if is_idle s.state then base else 100

-- A search and the six interrupts that it takes at most, the bus showing `a` and `b` at the two
-- samples.
abbrev pub searched : Bool → Bool → Bool → Bool → Ow → Ow
searched direction a b e s = run (a ∷ e ∷ b ∷ e ∷ e ∷ e ∷ []) (search direction s)

-- What the master answers to the two samples and what it leaves in bit 2: with no answer (the line high
-- twice) it stops, and bit 2 is as before; otherwise it follows the only direction that a device has
-- answered for, or the one asked for.
abbrev pub expected : Bool → Bool → Bool → ℕ → ℕ
expected direction true true b0 = 0 + 4 * to_nat direction
expected direction false true b0 = 1 + 4 * 1
expected direction true false b0 = 2 + 4 * 0
expected direction false false b0 = 3 + 4 * bit_at b0 2

abbrev pub same_act : Act → Act → Bool
same_act pull pull = true
same_act release release = true
same_act power power = true
same_act timer_off timer_off = true
same_act (wait n) (wait m) = n == m
same_act _ _ = false

-- The acts begin with the given ones; both lists have the newest first.
abbrev pub begin_with : List Act → List Act → Bool
begin_with [] trace = true
begin_with (a ∷ acts) [] = false
begin_with (a ∷ acts) (x ∷ trace) = same_act x a && begin_with acts trace

-- The waveform of a slot in which the master reads, newest first.
abbrev pub read_wave : List Act → List Act
read_wave before = wait 60 ∷ wait 5 ∷ release ∷ pull ∷ before

-- The waveform of a search, newest first: two slots read and, if a device has answered, one written with
-- the direction that the search takes.
abbrev pub search_wave : Bool → Bool → Bool → Bool → List Act
search_wave kept direction true true =
    timer_off ∷ bit_wave direction kept (read_wave (read_wave []))
search_wave kept direction false true = timer_off ∷ bit_wave true kept (read_wave (read_wave []))
search_wave kept direction true false = timer_off ∷ bit_wave false kept (read_wave (read_wave []))
search_wave kept direction false false = timer_off ∷ read_wave (read_wave [])

from : StrongPower → ℕ → ℕ → List ℕ → Ow → Ow
from held b0 b1 rest s = record s {
  state = idle;
  strong_power_request = held;
  ow_data = b0 ∷ b1 ∷ rest;
}

check : Bool → Bool → Bool → Bool → StrongPower → Ow → ℕ → List ℕ → ℕ → Bool
check d a b e held s b1 rest b0 =
    let t = searched d a b e (from held b0 b1 rest s) in
    (outcome t == expected d a b b0) && begin_with (search_wave (is_keep held) d a b) t.trace
