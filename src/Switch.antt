-- ===== src/Switch.antt =====
-- The double wall switches of the daemon, bytd/src/Vypinace.cpp: `VypinacDuoSimple` and
-- `VypinacDuoWithLongPress`. The timer is outside: it is armed or cancelled, it may expire, and its
-- handler runs later.
mod Tests
pub mod Gestures
use byt.Base.{ℕ, Bool, true, false, not, ◌&&◌, ◌||◌, List, [], ◌∷◌, if◌then◌else◌}

pub data Button : Type 0 where
  ru rd lu ld : Button

-- `State`: none, up, down.
pub data Side : Type 0 where
  released up down : Side

-- The events without their `Clicked` or `ClickedLong`.
pub data Gesture : Type 0 where
  g_ru g_rd g_lu g_ld both_u both_d diagonal_ruld diagonal_lurd : Gesture

-- A notified event, and whether it is the long one.
pub record Click : Type 0 where
  pub long : Bool
  pub gesture : Gesture

pub record Combo : Type 0 where
  pub left : Side
  pub right : Side

abbrev pub no_combo : Combo
no_combo = record { left = released; right = released }

-- The branch of `pressed` that stores a button.
unfoldable pub store : Button → Combo → Combo
store lu c = record c { left = up }
store ld c = record c { left = down }
store ru c = record c { right = up }
store rd c = record c { right = down }

abbrev pub is_up : Side → Bool
is_up up = true
is_up _ = false

abbrev pub is_down : Side → Bool
is_down down = true
is_down _ = false

abbrev pub is_pressed : Side → Bool
is_pressed released = false
is_pressed _ = true

-- The choice of the event of both classes.
unfoldable pub notify : Bool → Combo → List Click → List Click
notify long c seen =
    let say = λ (g : Gesture). record { long = long; gesture = g } ∷ seen in
    if is_pressed c.left && is_pressed c.right
    then (if is_up c.left && is_up c.right
        then say both_u
        else if is_down c.left && is_down c.right
        then say both_d
        else if is_down c.left && is_up c.right
        then say diagonal_ruld
        else if is_up c.left && is_down c.right
        then say diagonal_lurd
        else seen)
    else if is_pressed c.left || is_pressed c.right
    then (if is_up c.left
        then say g_lu
        else if is_down c.left
        then say g_ld
        else if is_up c.right
        then say g_ru
        else if is_down c.right
        then say g_rd
        else seen)
    else seen

-- `VypinacDuoSimple`, with the events notified, newest first.
pub record Simple : Type 0 where
  pub combo : Combo
  pub seen : List Click

-- `VypinacDuoSimple::pressed`.
unfoldable pub pressed : Button → Bool → Simple → Simple
unfolding store notify
pressed id true s = record s { combo = store id s.combo }
pressed id false s = record { combo = no_combo; seen = notify false s.combo s.seen }

-- The timer: not armed, armed, or its handler waiting to run with `longPress`.
pub data Timer : Type 0 where
  off armed : Timer
  queued : Bool → Timer

pub record Long : Type 0 where
  pub combo : Combo
  pub timer : Timer
  pub long_press : Bool
  pub seen : List Click

-- `timer.cancel()`: an armed timer's handler runs with an error.
unfoldable pub cancel : Timer → Timer
cancel off = off
cancel armed = queued false
cancel (queued b) = queued b

-- `VypinacDuoWithLongPress::pressed`.
unfoldable pub pressed_long : Button → Bool → Long → Long
unfolding store cancel
pressed_long id true s =
    let quiet = not (is_pressed s.combo.left) && not (is_pressed s.combo.right) in
    record s { combo = store id s.combo; timer = if quiet then armed else s.timer }
pressed_long id false s = record s { timer = cancel s.timer }

-- 500 ms have gone by.
unfoldable pub expire : Long → Long
expire s = elim s.timer [ off ↦ s | armed ↦ record s { timer = queued true } | queued b ↦ s ]

-- `VypinacDuoWithLongPress::onTimer`.
unfoldable pub on_timer : Long → Long
unfolding notify
on_timer s = record s { combo = no_combo; seen = notify s.long_press s.combo s.seen }

-- The handler of the timer.
unfoldable pub run_handler : Long → Long
unfolding on_timer
run_handler s = elim s.timer [
  | off ↦ s
  | armed ↦ s
  | queued b ↦ on_timer (record s { timer = off; long_press = b })
]
