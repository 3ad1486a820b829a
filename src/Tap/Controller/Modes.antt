-- ===== src/Tap/Controller/Modes.antt =====
-- controller_task: a normal pour and a manual fill never run together.
use keg_scale_espdisplay.Tap.Controller.Opening.{next_action-Shut}
use keg_scale_espdisplay.Tap.Control.{stop, start}
use keg_scale_espdisplay.Tap.Device.{
  Kind, begin_pour, test_servo, close_tap, begin_half, Action, Device, Input,
}
use keg_scale_espdisplay.Tap.Sense.{Seen, sense}
use keg_scale_espdisplay.Tap.Actions.{
  close_after_pour, end_test, next_action, open_for, dispatch, handle_action, is_some, handle_hold,
}
use keg_scale_espdisplay.Tap.Controller.{
  stop_now, take_request, handle_stop, finish, act, serve, round,
}
use keg_scale_espdisplay.Tap.Controller.Closing.{close_for_update-Idle}
use keg_scale_espdisplay.Tap.Controller.Phases.{Shut, Exclusive, sense-Exclusive}
use keg_scale_espdisplay.Prelude.{ℕ, refl, Bool, true, false, Option, none, some, arith}

module _ (i : Input) (d : Device) (x : Exclusive d) where
  open_for-Exclusive :
      (half web : Bool) (target : ℕ) → Shut d → Exclusive (open_for i half web target d)
  unfolding open_for start
  open_for-Exclusive half web target s = ground arith

  dispatch-Exclusive : (k : Kind) (a : Action) → Exclusive (dispatch i k a d)
  unfolding dispatch
  dispatch-Exclusive close_tap a = ground arith
  dispatch-Exclusive test_servo a = ground arith
  dispatch-Exclusive begin_pour a =
      ground (arith, open_for-Exclusive false a.from_web d.settings.stop_mm)
  dispatch-Exclusive begin_half a =
      ground (arith, open_for-Exclusive true a.from_web d.half_stop_mm)

  handle_action-Exclusive :
      (stopped : Bool) (o : Option Action) → Exclusive (handle_action i stopped o d)
  unfolding handle_action
  handle_action-Exclusive stopped none = x
  handle_action-Exclusive stopped (some a) = ground (arith, dispatch-Exclusive a.kind a)

  handle_hold-Exclusive :
      (stopped got : Bool) (r : Seen) → Exclusive (handle_hold i stopped got r d)
  unfolding handle_hold stop
  handle_hold-Exclusive stopped got r = ground arith

  before_action-Exclusive : (r : Seen) → Exclusive (end_test i (close_after_pour i r d))
  unfolding end_test close_after_pour stop
  before_action-Exclusive r = ground arith

  handle_stop-Exclusive : (r : Seen) → Exclusive (handle_stop i r d).0
  unfolding handle_stop stop_now take_request
  handle_stop-Exclusive r = ground arith

  finish-Exclusive : Exclusive (finish i d)
  unfolding finish
  finish-Exclusive = ground arith

act-Exclusive :
    (i : Input) (stopped : Bool) (r : Seen) (d : Device)
    → Exclusive d
    → Exclusive (act i stopped r d)
unfolding act
act-Exclusive i stopped r d x =
    let d₁ = end_test i (close_after_pour i r d) in
    let x₁ = before_action-Exclusive i d x r in
    let (d₂, a) = next_action stopped r d₁ in
    let k = next_action-Shut i d₁ stopped r d₁.actions refl in
    let x₂ : Exclusive d₂ = ground arith in
    handle_hold-Exclusive i (handle_action i stopped a d₂)
      (handle_action-Exclusive i d₂ x₂ stopped a) stopped (is_some a) r

serve-Exclusive : (i : Input) (r : Seen) (d : Device) → Exclusive d → Exclusive (serve i r d).0
unfolding serve
serve-Exclusive i r d x =
    let (d₁, stopped) = handle_stop i r d in
    finish-Exclusive i (act i stopped r d₁)
      (act-Exclusive i stopped r d₁ (handle_stop-Exclusive i d x r))

-- A round keeps the normal pour and the manual fill apart: it never leaves both running.
pub round-Exclusive : (i : Input) (d : Device) → Exclusive d → Exclusive (round i d).0
unfolding round
round-Exclusive i d x =
    let (d₁, r) = sense i d in
    let x₁ = sense-Exclusive i d x in
    ground (arith, close_for_update-Idle i r d₁, serve-Exclusive i r d₁ x₁)
