-- ===== src/Switch/Gestures.antt =====
-- The gestures that the double switches of bytd/src/Vypinace.cpp recognise.
use byt.Base.{◌≡◌, refl, ap, ◌∙◌, Bool, true, false, not, ◌&&◌, List, [], ◌∷◌, if◌then◌else◌}
use byt.Switch.{
  Button, ru, rd, lu, ld, Side, released, up, down, Gesture, g_ru, g_rd, g_lu, g_ld, both_u, both_d,
  diagonal_ruld, diagonal_lurd, Click, no_combo, store, is_pressed, notify, Simple, pressed, off,
  armed, Long, cancel, pressed_long, expire, on_timer, run_handler,
}

-- The last button of each side among those pressed, `bs` being the newest last.
abbrev pub last_left : Side → List Button → Side
last_left s [] = s
last_left s (lu ∷ bs) = last_left up bs
last_left s (ld ∷ bs) = last_left down bs
last_left s (ru ∷ bs) = last_left s bs
last_left s (rd ∷ bs) = last_left s bs

abbrev pub last_right : Side → List Button → Side
last_right s [] = s
last_right s (ru ∷ bs) = last_right up bs
last_right s (rd ∷ bs) = last_right down bs
last_right s (lu ∷ bs) = last_right s bs
last_right s (ld ∷ bs) = last_right s bs

-- The gesture of the two sides, as a table.
abbrev pub gesture : Side → Side → List Gesture
gesture released released = []
gesture released up = g_ru ∷ []
gesture released down = g_rd ∷ []
gesture up released = g_lu ∷ []
gesture down released = g_ld ∷ []
gesture up up = both_u ∷ []
gesture down down = both_d ∷ []
gesture down up = diagonal_ruld ∷ []
gesture up down = diagonal_lurd ∷ []

abbrev pub clicks : Bool → List Gesture → List Click → List Click
clicks long [] seen = seen
clicks long (g ∷ gs) seen = record { long = long; gesture = g } ∷ clicks long gs seen

notify-gesture :
    (long : Bool) (l r : Side) (seen : List Click)
    → notify long (record { left = l; right = r }) seen ≡ clicks long (gesture l r) seen
unfolding notify
notify-gesture long released released seen = refl
notify-gesture long released up seen = refl
notify-gesture long released down seen = refl
notify-gesture long up released seen = refl
notify-gesture long up up seen = refl
notify-gesture long up down seen = refl
notify-gesture long down released seen = refl
notify-gesture long down up seen = refl
notify-gesture long down down seen = refl

abbrev pub presses : List Button → Simple → Simple
presses [] s = s
presses (b ∷ bs) s = presses bs (pressed b true s)

presses_lem :
    (bs : List Button) (l r : Side) (seen : List Click)
    → presses bs (record { combo = record { left = l; right = r }; seen = seen })
      ≡ record { combo = record { left = last_left l bs; right = last_right r bs }; seen = seen }
unfolding pressed store
presses_lem [] l r seen = refl
presses_lem (lu ∷ bs) l r seen = presses_lem bs up r seen
presses_lem (ld ∷ bs) l r seen = presses_lem bs down r seen
presses_lem (ru ∷ bs) l r seen = presses_lem bs l up seen
presses_lem (rd ∷ bs) l r seen = presses_lem bs l down seen

-- Buttons pressed in any order and number and then one released: exactly the event of the last button
-- of each side is notified, none if no button was pressed, and the switch is as at the start.
pub simple_lem :
    (bs : List Button) (b : Button) (seen : List Click)
    → pressed b false (presses bs (record { combo = no_combo; seen = seen })) ≡ record {
      combo = no_combo;
      seen = clicks false (gesture (last_left released bs) (last_right released bs)) seen;
    }
simple_lem bs b seen =
    ap (pressed b false) (presses_lem bs released released seen)
    ∙ let_go (last_left released bs) (last_right released bs)
  where
    let_go :
        (l r : Side)
        → pressed b false (record { combo = record { left = l; right = r }; seen = seen })
          ≡ record { combo = no_combo; seen = clicks false (gesture l r) seen }
    let_go l r =
        unfold pressed in
        ap (λ q. record { combo = no_combo; seen = q }) (notify-gesture false l r seen)

abbrev pub presses_long : List Button → Long → Long
presses_long [] s = s
presses_long (b ∷ bs) s = presses_long bs (pressed_long b true s)

abbrev waiting : Side → Side → Bool → List Click → Long
waiting l r p seen = record {
  combo = record { left = l; right = r };
  timer = armed;
  long_press = p;
  seen = seen;
}

still_armed :
    (bs : List Button) (l r : Side) (p : Bool) (seen : List Click) (quiet : Bool)
    → presses_long bs (record (waiting l r p seen) { timer = if quiet then armed else armed })
      ≡ presses_long bs (waiting l r p seen)
still_armed bs l r p seen true = refl
still_armed bs l r p seen false = refl

presses_long_lem :
    (bs : List Button) (l r : Side) (p : Bool) (seen : List Click)
    → presses_long bs (waiting l r p seen) ≡ waiting (last_left l bs) (last_right r bs) p seen
unfolding pressed_long store
presses_long_lem [] l r p seen = refl
presses_long_lem (lu ∷ bs) l r p seen =
    still_armed bs up r p seen (not (is_pressed l) && not (is_pressed r))
    ∙ presses_long_lem bs up r p seen
presses_long_lem (ld ∷ bs) l r p seen =
    still_armed bs down r p seen (not (is_pressed l) && not (is_pressed r))
    ∙ presses_long_lem bs down r p seen
presses_long_lem (ru ∷ bs) l r p seen =
    still_armed bs l up p seen (not (is_pressed l) && not (is_pressed r))
    ∙ presses_long_lem bs l up p seen
presses_long_lem (rd ∷ bs) l r p seen =
    still_armed bs l down p seen (not (is_pressed l) && not (is_pressed r))
    ∙ presses_long_lem bs l down p seen

-- The switch between two gestures.
abbrev pub rest : Bool → List Click → Long
rest p seen = record { combo = no_combo; timer = off; long_press = p; seen = seen }

first_press :
    (b : Button) (bs : List Button) (p : Bool) (seen : List Click)
    → presses_long (b ∷ bs) (rest p seen)
      ≡ waiting (last_left released (b ∷ bs)) (last_right released (b ∷ bs)) p seen
unfolding pressed_long store
first_press lu bs p seen = presses_long_lem bs up released p seen
first_press ld bs p seen = presses_long_lem bs down released p seen
first_press ru bs p seen = presses_long_lem bs released up p seen
first_press rd bs p seen = presses_long_lem bs released down p seen

-- Buttons pressed in any order and number, then one released or the time over: when the handler of the
-- timer has run, exactly the event of the last button of each side has been notified, the short one
-- after a release and the long one after the time, and the switch is ready for the next gesture.
pub long_lem :
    (b x : Button) (bs : List Button) (p : Bool) (seen : List Click)
    → let g = gesture (last_left released (b ∷ bs)) (last_right released (b ∷ bs)) in
      (run_handler (pressed_long x false (presses_long (b ∷ bs) (rest p seen)))
        ≡ rest false (clicks false g seen))
      × (run_handler (expire (presses_long (b ∷ bs) (rest p seen)))
          ≡ rest true (clicks true g seen))
long_lem b x bs p seen =
    let l = last_left released (b ∷ bs) in
    let r = last_right released (b ∷ bs) in
    (
      ap (λ s. run_handler (pressed_long x false s)) (first_press b bs p seen) ∙ short l r,
      ap (λ s. run_handler (expire s)) (first_press b bs p seen) ∙ over l r,
    )
  where
    short :
        (l r : Side)
        → run_handler (pressed_long x false (waiting l r p seen))
          ≡ rest false (clicks false (gesture l r) seen)
    short l r =
        unfold run_handler pressed_long cancel on_timer in
        ap (λ q. rest false q) (notify-gesture false l r seen)

    over :
        (l r : Side)
        → run_handler (expire (waiting l r p seen)) ≡ rest true (clicks true (gesture l r) seen)
    over l r =
        unfold run_handler expire on_timer in ap (λ q. rest true q) (notify-gesture true l r seen)
