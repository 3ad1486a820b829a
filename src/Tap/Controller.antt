-- ===== src/Tap/Controller.antt =====
-- touchpour/components/tap_control/app.cpp, `controller_task`: one round of its loop, statement by
-- statement. The calls of foam_observe and history_observe, which change nothing here, and the log
-- lines are left out.
use keg_scale_espdisplay.Prelude.{Bool, true, false, not, ◌&&◌, ◌||◌, [], ◌==◌, if◌then◌else◌}
use keg_scale_espdisplay.Tap.Control.{
  Reason, fill_target, firmware_update, tap_locked, emergency_stop, tap_closed,
}
use keg_scale_espdisplay.Tap.Sounds.{SoundCue}
use keg_scale_espdisplay.Tap.Sounds
use keg_scale_espdisplay.Tap.Device.{
  Device, pouring_active, at_update, at_stop, at_idle, Input, stop_both, set_servo,
}
use keg_scale_espdisplay.Tap.Sense.{Seen, cancel_button, testing, sense}
use keg_scale_espdisplay.Tap.Actions.{
  close_after_pour, end_test, next_action, handle_action, is_some, handle_hold,
}
pub mod Phases
pub mod Closing
pub mod Opening
pub mod Modes
pub mod Locked
pub mod Examples

-- The branch `firmware_updating`: the tap is closed and everything is cancelled.
unfoldable pub close_for_update : Input → Seen → Device → Device × SoundCue
unfolding set_servo stop_both
close_for_update i r d =
    let d₁ = record (stop_both firmware_update (cancel_button d)) {
      manual_deadline = 0;
      manual_test_active = false;
      actions = [];
    } in
    let d₂ = set_servo d.settings.closed_us (i.pwm_ok at_update) d₁ in
    let (s, cue) = Sounds.update false false r.cup_absent false i.now d.sounds in
    (
      record d₂ {
        update_closed = d₂.servo_us == d.settings.closed_us;
        touch_stop_armed = false;
        stop_requested = false;
        sounds = s;
      },
      cue,
    )

abbrev pub locks_stop : Input → Seen → Device → Bool
locks_stop i r d = i.locked && not d.web_operation && (r.was || testing d)

unfoldable pub must_stop : Input → Seen → Device → Bool
must_stop i r d = d.stop_requested || (r.event.pressed && (r.was || testing d)) || locks_stop i r d

-- The branch `stop`.
unfoldable pub stop_now : Input → Seen → Device → Device
unfolding set_servo stop_both
stop_now i r d =
    let why =
      if locks_stop i r d
      then tap_locked
      else if r.was || testing d
      then emergency_stop
      else tap_closed in
    set_servo d.settings.closed_us (i.pwm_ok at_stop)
      (record (stop_both why (cancel_button d)) { manual_deadline = 0; actions = [] })

-- The button is cancelled by the lock, and the request is taken.
unfoldable pub take_request : Input → Device → Device
take_request i d = record (if i.locked then cancel_button d else d) { stop_requested = false }

-- From `lock_stop` to the end of the branch `stop`; the result says whether there was a stop.
unfoldable pub handle_stop : Input → Seen → Device → Device × Bool
handle_stop i r d =
    if must_stop i r d then (stop_now i r (take_request i d), true) else (take_request i d, false)

-- The statements after the actions: the idle tap is closed, and the shared flags are written.
unfoldable pub finish : Input → Device → Device
unfolding pouring_active set_servo
finish i d =
    let d₁ =
      if d.settings.servo_calibrated && not (pouring_active d) && not (testing d)
      then set_servo d.settings.closed_us (i.pwm_ok at_idle) d
      else d in
    record d₁ {
      web_operation =
          if not (pouring_active d₁) && not (testing d₁) then false else d₁.web_operation;
      manual_test_active = testing d₁;
      touch_stop_armed = pouring_active d₁ || testing d₁;
      active_stop_mm =
          if d₁.control.pouring then d₁.selected_settings.stop_mm else d₁.settings.stop_mm;
    }

abbrev pub is_fill_target : Reason → Bool
is_fill_target fill_target = true
is_fill_target _ = false

unfoldable pub sound : Input → Seen → Device → Device × SoundCue
unfolding pouring_active
sound i r d =
    let why = if d.manual_hold.pouring then d.manual_hold.reason else d.control.reason in
    let (s, cue) =
      Sounds.update (r.cup_ready && not i.setup_mode && not d.manual_test_active && not i.locked)
        (pouring_active d) r.cup_absent (is_fill_target why) i.now d.sounds in
    (record d { sounds = s }, cue)

-- The statements between the branch `stop` and the shared flags.
unfoldable pub act : Input → Bool → Seen → Device → Device
unfolding close_after_pour end_test next_action handle_action handle_hold
act i stopped r d =
    let (d₁, a) = next_action stopped r (end_test i (close_after_pour i r d)) in
    handle_hold i stopped (is_some a) r (handle_action i stopped a d₁)

-- A round without a firmware update.
unfoldable pub serve : Input → Seen → Device → Device × SoundCue
unfolding handle_stop finish sound
serve i r d = let (d₁, stopped) = handle_stop i r d in sound i r (finish i (act i stopped r d₁))

unfoldable pub round : Input → Device → Device × SoundCue
unfolding sense close_for_update serve
round i d =
    let (d₁, r) = sense i d in
    if d₁.firmware_updating then close_for_update i r d₁ else serve i r d₁
