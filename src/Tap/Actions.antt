-- ===== src/Tap/Actions.antt =====
-- app.cpp, `controller_task`: the end of a pour and of a servo test, the queue of actions, and the
-- manual fill.
use keg_scale_espdisplay.Prelude.{
  ℕ, Bool, true, false, not, ◌&&◌, ◌||◌, Option, none, some, [], ◌∷◌, if◌then◌else◌, sub32, add32,
  is_neg32,
}
use keg_scale_espdisplay.Tap.Control.{
  start_rejected, test_completed, manual_close, servo_test, half_pour, half_unavailable,
  manual_fill, manual_rejected, Control,
}
use keg_scale_espdisplay.Tap.Control
use keg_scale_espdisplay.Tap.Target.{target_ready, half_ready, for_target}
use keg_scale_espdisplay.Tap.Device.{
  Kind, begin_pour, test_servo, close_tap, begin_half, Action, Device, pouring_active, at_end,
  at_deadline, at_close, at_test, at_start, at_hold, Input, stop_both, set_servo,
}
use keg_scale_espdisplay.Tap.Sense.{Seen, cancel_button, testing}

unfoldable pub close_after_pour : Input → Seen → Device → Device
unfolding pouring_active set_servo
close_after_pour i r d =
    if r.was && not (pouring_active d)
    then set_servo d.settings.closed_us (i.pwm_ok at_end) d
    else d

unfoldable pub end_test : Input → Device → Device
unfolding set_servo sub32 is_neg32
end_test i d =
    if testing d && not (is_neg32 (sub32 i.now d.manual_deadline))
    then (let d' = set_servo d.settings.closed_us (i.pwm_ok at_deadline) d in
        record d' { manual_deadline = 0; control = Control.stop test_completed d'.control })
    else d

-- `xQueueReceive` without waiting; a short press that may start a pour takes the place of the
-- received action.
unfoldable pub next_action : Bool → Seen → Device → Device × Option Action
next_action stopped r d =
    let start_action : Action = record { kind = begin_pour; pulse = 0; from_web = false } in
    let shorted = r.event.short_press && not r.was && not stopped in
    elim d.actions [
      | [] ↦ (d, (if shorted then some start_action else none))
      | a ∷ rest ↦ (record d { actions = rest }, (if shorted then some start_action else some a))
    ]

unfoldable pub do_close : Input → Device → Device
unfolding set_servo stop_both
do_close i d =
    set_servo d.settings.closed_us (i.pwm_ok at_close)
      (record (stop_both manual_close (cancel_button d)) { manual_deadline = 0 })

unfoldable pub do_test : Input → Action → Device → Device
unfolding set_servo add32
do_test i a d =
    let d₁ = record (cancel_button d) {
      control = Control.reset_ready d.control;
      manual_hold = Control.reset_ready d.manual_hold;
      web_operation = a.from_web;
    } in
    let d₂ = set_servo a.pulse (i.pwm_ok at_test) d₁ in
    record d₂ {
      manual_deadline = add32 i.now 2000;
      control = record d₂.control { reason = servo_test };
    }

-- `control.start`, and what follows when it opens the tap.
unfoldable pub open_for : Input → Bool → Bool → ℕ → Device → Device
unfolding set_servo for_target
open_for i half web target d =
    let c = for_target d.settings target in
    let (k, opened) = Control.start c i.now d.control in
    let d₁ = record d { selected_settings = c; control = k } in
    if not opened
    then d₁
    else set_servo d.settings.open_us (i.pwm_ok at_start) (record (cancel_button d₁) {
      control = if half then record k { reason = half_pour } else k;
      manual_hold = Control.reset_ready d.manual_hold;
      web_operation = web;
    })

unfoldable pub do_start : Input → Bool → Action → Device → Device
unfolding half_ready target_ready open_for
do_start i half a d =
    let target = if half then d.half_stop_mm else d.settings.stop_mm in
    let eligible =
      if half
      then half_ready d.settings d.control d.sample i.now target
      else target_ready d.settings d.control d.sample i.now target in
    if eligible then open_for i half a.from_web target d else record d {
      control = record d.control { reason = if half then half_unavailable else start_rejected };
    }

-- The guard of the branches START and START_HALF.
unfoldable pub may_start : Input → Device → Bool
unfolding pouring_active
may_start i d =
    not i.setup_mode && not (testing d) && not i.history_saving && not (pouring_active d)

unfoldable pub dispatch : Input → Kind → Action → Device → Device
unfolding do_close do_test do_start may_start pouring_active
dispatch i close_tap a d = do_close i d
dispatch i test_servo a d =
    if not (pouring_active d) && not i.history_saving then do_test i a d else d
dispatch i begin_pour a d = if may_start i d then do_start i false a d else d
dispatch i begin_half a d = if may_start i d then do_start i true a d else d

abbrev pub is_close : Kind → Bool
is_close close_tap = true
is_close _ = false

-- The statement `if (got && !stop && ...)`.
unfoldable pub handle_action : Input → Bool → Option Action → Device → Device
unfolding dispatch
handle_action i stopped none d = d
handle_action i stopped (some a) d =
    if not stopped && (not i.locked || a.from_web || is_close a.kind)
    then dispatch i a.kind a d
    else d

abbrev pub is_some {ℓ} : {A : Type ℓ} → Option A → Bool
is_some none = false
is_some (some a) = true

-- The guard of a manual fill.
unfoldable pub may_hold : Input → Device → Bool
unfolding pouring_active
may_hold i d =
    not i.locked
    && not i.setup_mode
    && not (testing d)
    && not i.history_saving
    && not (pouring_active d)
    && d.settings.servo_calibrated

unfoldable pub begin_hold : Input → Device → Device
unfolding set_servo stop_both may_hold
begin_hold i d =
    if may_hold i d
    then set_servo d.settings.open_us (i.pwm_ok at_hold) (record d {
      selected_settings = d.settings;
      manual_hold = record d.manual_hold { pouring = true; started = i.now; reason = manual_fill };
      control = Control.stop manual_fill d.control;
    })
    else cancel_button (stop_both manual_rejected d)

unfoldable pub handle_hold : Input → Bool → Bool → Seen → Device → Device
unfolding begin_hold
handle_hold i stopped got r d =
    if r.event.long_press && not stopped && not got then begin_hold i d else d
