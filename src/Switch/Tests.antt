-- ===== src/Switch/Tests.antt =====
-- The double switches of bytd/src/Vypinace.cpp at concrete inputs.
use byt.Base.{◌≡◌, true, false, List, [], ◌∷◌}
use byt.Switch.{Button, ru, rd, lu, ld, released, pressed_long, expire, run_handler}
use byt.Switch.Gestures.{last_left, last_right, gesture, clicks, presses_long, rest, long_lem}

abbrev buttons : List Button
buttons = lu ∷ rd ∷ ld ∷ []

long_lem_example :
    let g = gesture (last_left released (ru ∷ buttons)) (last_right released (ru ∷ buttons)) in
    (run_handler (pressed_long rd false (presses_long (ru ∷ buttons) (rest false [])))
      ≡ rest false (clicks false g []))
    × (run_handler (expire (presses_long (ru ∷ buttons) (rest false [])))
        ≡ rest true (clicks true g []))
long_lem_example = long_lem ru rd buttons false []
