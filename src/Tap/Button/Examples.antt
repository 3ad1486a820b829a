-- ===== src/Tap/Button/Examples.antt =====
-- A press that is held and let go.
use keg_scale_espdisplay.Prelude.{◌≡◌, refl, true, false, [], ◌∷◌}
use keg_scale_espdisplay.Tap.Button.{ButtonGesture, new_gesture, update}
use keg_scale_espdisplay.Tap.Button.Laws.{run, starts}

-- The level falls at 100, and is read at 140 and at 2200.
abbrev held_button : ButtonGesture
held_button = record {
  raw_previous = false;
  debounced = false;
  armed = true;
  blocked = false;
  long_sent = false;
  edge = 100;
  pressed_at = 140;
}

presses_and_holds :
    run ((false, 100, false) ∷ (false, 140, false) ∷ []) (new_gesture true 0) ≡ held_button
unfolding run update new_gesture
presses_and_holds = refl

long_press_is_one_start :
    starts ((false, 2200, false) ∷ (true, 2300, false) ∷ (true, 2340, false) ∷ []) held_button ≡ 1
unfolding starts update
long_press_is_one_start = refl
