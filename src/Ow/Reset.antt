-- ===== src/Ow/Reset.antt =====
-- The reset and presence pulse of the 1-wire master.
use byt.Base.{Bool, false, ◌≡◌, [], ◌∷◌, not, if◌then◌else◌, arith}
use byt.Ow.Bus.{
  Response, bus_failure0, bus_failure1, no_presence, bus_failure3, presence_ok, idle, Ow,
}
use byt.Ow.Ops.{init, run, all_ops}

-- What a reset reports, from the line before it, at the end of the pulse, in the presence window
-- and at its end (true for low).
abbrev pub reset_outcome : Bool → Bool → Bool → Bool → Response
reset_outcome before held present stuck =
    if before
    then bus_failure0
    else if not held
    then bus_failure1
    else if not present
    then no_presence
    else if stuck
    then bus_failure3
    else presence_ok

-- A reset that is asked of an idle master is over after three timer interrupts at most. Then the
-- master is idle, the line is released, and the response tells the four samples of the
-- line apart: low before, not low under the pulse, nobody there, stuck low, or a presence.
pub init_lem :
    (s : Ow) (before held present stuck : Bool)
    → s.state ≡ idle
    → let t = run (held ∷ present ∷ stuck ∷ []) (init before s) in
      (t.state ≡ idle)
      × (t.response_code ≡ reset_outcome before held present stuck)
      × (t.ddra ≡ false)
unfolding all_ops
init_lem s before held present stuck e = ground arith
