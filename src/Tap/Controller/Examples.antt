-- ===== src/Tap/Controller/Examples.antt =====
-- Rounds of a calibrated tap.
use keg_scale_espdisplay.Tap.Sense.{sense}
use keg_scale_espdisplay.Tap.Controller.Phases.{Idle, Shut, Exclusive}
use keg_scale_espdisplay.Tap.Controller.Closing.{round-servo_us, round-Idle}
use keg_scale_espdisplay.Tap.Controller.Opening.{MayOpen, round-MayOpen}
use keg_scale_espdisplay.Tap.Controller.Modes.{round-Exclusive}
use keg_scale_espdisplay.Tap.Controller.Locked.{round-locked}
use keg_scale_espdisplay.Prelude.{◌≡◌, refl, ◌⊎◌, inl, inr, true, false, [], ◌∷◌}
use keg_scale_espdisplay.Tap.Control.{tap_closed, new_control}
use keg_scale_espdisplay.Tap.Control.Examples.{calibrated, reading, open_tap}
use keg_scale_espdisplay.Tap.Button.{new_gesture}
use keg_scale_espdisplay.Tap.Sounds.{new_sounds}
use keg_scale_espdisplay.Tap.Device.{begin_pour, Action, Device, Input}
use keg_scale_espdisplay.Tap.Controller.{must_stop, take_request, handle_stop, act, round}

abbrev web_start : Action
web_start = record { kind = begin_pour; pulse = 0; from_web = true }

-- A closed tap above which a cup stands, with a start from the web in the queue.
abbrev waiting : Device
waiting = record {
  settings = calibrated;
  sample = reading 5 300;
  control = record open_tap { pouring = false; reason = tap_closed };
  manual_hold = new_control;
  actions = web_start ∷ [];
  stop_requested = false;
  manual_test_active = false;
  firmware_updating = false;
  update_closed = false;
  touch_stop_armed = false;
  servo_us = 1500;
  half_stop_mm = 0;
  active_stop_mm = 80;
  button = new_gesture true 0;
  sounds = new_sounds;
  manual_deadline = 0;
  web_operation = false;
  selected_settings = calibrated;
}

abbrev calm : Input
calm = record {
  raw_high = true;
  now = 520;
  locked = false;
  setup_mode = false;
  history_saving = false;
  pwm_ok = λ _. true;
}

starts_from_the_web :
    let d = (round calm waiting).0 in
    (d.control.pouring ≡ true) × (d.servo_us ≡ 1600) × (d.web_operation ≡ true) × (d.actions ≡ [])
unfolding round handle_stop must_stop take_request act keg_scale_espdisplay.Tap.Button.update
    new_gesture keg_scale_espdisplay.Tap.Control.update keg_scale_espdisplay.Tap.Control.on_sample
    keg_scale_espdisplay.Tap.Control.ready keg_scale_espdisplay.Tap.Settings.stable_distance
    keg_scale_espdisplay.Tap.Control.start
starts_from_the_web = (refl, refl, refl, refl)

-- The same tap while it pours.
abbrev pouring_tap : Device
pouring_tap = record waiting {
  control = open_tap;
  servo_us = 1600;
  actions = record web_start { from_web = false } ∷ [];
}

round-servo_us_example : (round calm (record waiting { actions = [] })).0.servo_us ≡ 1500
unfolding round handle_stop must_stop take_request act keg_scale_espdisplay.Tap.Button.update
    new_gesture keg_scale_espdisplay.Tap.Control.update keg_scale_espdisplay.Tap.Control.on_sample
round-servo_us_example =
    round-servo_us calm (record waiting { actions = [] }) refl refl refl (refl, refl, refl)

-- The button of the tap that pours went down 40 ms ago.
abbrev pressed_tap : Device
pressed_tap = record pouring_tap {
  button = record (new_gesture true 0) { raw_previous = false; edge = 480 };
}

round-Idle_example : Idle (round (record calm { raw_high = false }) pressed_tap).0
unfolding keg_scale_espdisplay.Tap.Sense.read_button keg_scale_espdisplay.Tap.Button.update
    new_gesture
round-Idle_example =
    round-Idle (record calm { raw_high = false }) pressed_tap (inr (inr (inr (refl, inl refl))))

round-MayOpen_example :
    Shut (round calm waiting).0
    ⊎ ((waiting.firmware_updating ≡ false)
        × (waiting.stop_requested ≡ false)
        × MayOpen calm (sense calm waiting).1 (sense calm waiting).0)
round-MayOpen_example = round-MayOpen calm waiting (refl, refl)

round-Exclusive_example : Exclusive (round calm pouring_tap).0
round-Exclusive_example = round-Exclusive calm pouring_tap (inr refl)

round-locked_example : Idle (round (record calm { locked = true }) pouring_tap).0
round-locked_example = round-locked (record calm { locked = true }) pouring_tap refl refl (refl, tt)
