-- ===== src/Tap/Controller/Closing.antt =====
-- controller_task: every request to close ends the pour, the manual fill and the servo test, and an
-- idle calibrated tap has its servo at the closed pulse.
use keg_scale_espdisplay.Prelude.{
  ◌≡◌, refl, ap, ◌∙◌, ◌≢◌, ◌⊎◌, Bool, true, false, not, ◌&&◌, Option, none, some, List, [], ◌∷◌,
  arith, if◌then◌else◌,
}
use keg_scale_espdisplay.Tap.Settings.{Settings}
use keg_scale_espdisplay.Tap.Device.{
  Kind, begin_pour, test_servo, close_tap, begin_half, Action, Device, pouring_active, at_update,
  at_idle, Input,
}
use keg_scale_espdisplay.Tap.Sense.{Seen, read_button, sense}
use keg_scale_espdisplay.Tap.Actions.{
  close_after_pour, end_test, next_action, open_for, dispatch, handle_action, is_some, begin_hold,
  handle_hold,
}
use keg_scale_espdisplay.Tap.Controller.{
  close_for_update, must_stop, stop_now, take_request, handle_stop, finish, act, serve, round,
}
use keg_scale_espdisplay.Tap.Controller.Phases.{Idle, sense-SameRequests, sense-was, sense-event}

module _ (i : Input) (r : Seen) (d : Device) where
  pub close_for_update-Idle :
      Idle (close_for_update i r d).0
      × ((close_for_update i r d).0.actions ≡ [])
      × (i.pwm_ok at_update ≡ true
          → ((close_for_update i r d).0.servo_us ≡ d.settings.closed_us)
            × ((close_for_update i r d).0.update_closed ≡ true))
  unfolding close_for_update
  close_for_update-Idle = (ground arith, ground arith, λ h. ground arith)

  pub stop_now-Idle : Idle (stop_now i r d) × ((stop_now i r d).actions ≡ [])
  unfolding stop_now
  stop_now-Idle = (ground arith, ground arith)

  stop_now-settings : (stop_now i r d).settings ≡ d.settings
  unfolding stop_now
  stop_now-settings = ground arith

module _ (i : Input) (r : Seen) (d : Device) where
  handle_stop-Idle :
      must_stop i r d ≡ true
      → Idle (handle_stop i r d).0
        × ((handle_stop i r d).0.actions ≡ [])
        × ((handle_stop i r d).1 ≡ true)
        × ((handle_stop i r d).0.settings ≡ d.settings)
  unfolding handle_stop take_request
  handle_stop-Idle h =
      let d' = take_request i d in ground (arith, stop_now-Idle i r d', stop_now-settings i r d')

  close_after_pour-Idle :
      Idle d → Idle (close_after_pour i r d) × ((close_after_pour i r d).actions ≡ d.actions)
  unfolding close_after_pour
  close_after_pour-Idle h = (ground arith, ground arith)

  pub end_test-Idle : Idle d → end_test i d ≡ d
  unfolding end_test
  end_test-Idle h = ground arith

  next_action-stopped :
      Idle d → d.actions ≡ [] → Idle (next_action true r d).0 × ((next_action true r d).1 ≡ none)
  unfolding next_action
  next_action-stopped h e = (ground arith, ground arith)

  handle_hold-stopped : (got : Bool) → handle_hold i true got r d ≡ d
  unfolding handle_hold
  handle_hold-stopped got = not_held r.event.long_press
    where
      not_held : (b : Bool) → (if b && false && not got then begin_hold i d else d) ≡ d
      not_held true = refl
      not_held false = refl

act_stopped : (i : Input) (r : Seen) (d : Device) → Idle d → d.actions ≡ [] → Idle (act i true r d)
unfolding act
act_stopped i r d h e =
    let (h₁, e₁) = close_after_pour-Idle i r d h in
    let d₁ = close_after_pour i r d in
    let (h₂, n) = next_action-stopped i r d₁ h₁ (e₁ ∙ e) in
    let d₂ = (next_action true r d₁).0 in
    rw (end_test-Idle i r d₁ h₁, n) (rw (handle_hold-stopped i r d₂ false) h₂)

module _ (i : Input) (r : Seen) (d : Device) where
  pub finish-Idle :
      Idle d
      → Idle (finish i d)
        × (d.settings.servo_calibrated ≡ true
            → i.pwm_ok at_idle ≡ true
            → (finish i d).servo_us ≡ d.settings.closed_us)
  unfolding finish
  finish-Idle h = (ground arith, λ c p. ground arith)

module _ (i : Input) (d : Device) where
  dispatch-settings : (k : Kind) (a : Action) → (dispatch i k a d).settings ≡ d.settings
  unfolding dispatch open_for
  dispatch-settings close_tap a = ground arith
  dispatch-settings test_servo a = ground arith
  dispatch-settings begin_pour a = ground arith
  dispatch-settings begin_half a = ground arith

  pub handle_action-settings :
      (stopped : Bool) (o : Option Action) → (handle_action i stopped o d).settings ≡ d.settings
  unfolding handle_action
  handle_action-settings stopped none = refl
  handle_action-settings stopped (some a) = ground (arith, dispatch-settings a.kind a)

  handle_hold-settings :
      (stopped got : Bool) (r : Seen) → (handle_hold i stopped got r d).settings ≡ d.settings
  unfolding handle_hold
  handle_hold-settings stopped got r = ground arith

  next_action-settings :
      (stopped : Bool) (r : Seen) (queue : List Action)
      → d.actions ≡ queue
      → (next_action stopped r d).0.settings ≡ d.settings
  unfolding next_action
  next_action-settings stopped r [] e = ground arith
  next_action-settings stopped r (a ∷ rest) e = ground arith

  before_action-settings : (r : Seen) → (end_test i (close_after_pour i r d)).settings ≡ d.settings
  unfolding end_test close_after_pour
  before_action-settings r = ground arith

  finish_closes :
      Idle (finish i d)
      → d.settings.servo_calibrated ≡ true
      → i.pwm_ok at_idle ≡ true
      → (finish i d).servo_us ≡ d.settings.closed_us
  unfolding finish
  finish_closes h c p = ground arith

act-settings :
    (i : Input) (stopped : Bool) (r : Seen) (d : Device) → (act i stopped r d).settings ≡ d.settings
unfolding act
act-settings i stopped r d =
    let d₁ = end_test i (close_after_pour i r d) in
    let (d₂, a) = next_action stopped r d₁ in
    handle_hold-settings i (handle_action i stopped a d₂) stopped (is_some a) r
    ∙ handle_action-settings i d₂ stopped a
    ∙ next_action-settings i d₁ stopped r d₁.actions refl
    ∙ before_action-settings i d r

handle_stop-settings :
    (i : Input) (r : Seen) (d : Device) → (handle_stop i r d).0.settings ≡ d.settings
unfolding handle_stop take_request
handle_stop-settings i r d = ground (arith, stop_now-settings i r (take_request i d))

serve-servo_us :
    (i : Input) (r : Seen) (d : Device)
    → d.settings.servo_calibrated ≡ true
    → i.pwm_ok at_idle ≡ true
    → Idle (serve i r d).0
    → (serve i r d).0.servo_us ≡ d.settings.closed_us
unfolding serve
serve-servo_us i r d c p h =
    let (d₁, stopped) = handle_stop i r d in
    let d₂ = act i stopped r d₁ in
    let e = act-settings i stopped r d₁ ∙ handle_stop-settings i r d in
    finish_closes i d₂ h (rw e c) p ∙ ap (λ (x : Settings). x.closed_us) e

-- A calibrated tap that neither pours nor runs a servo test after a round has its servo at the
-- closed pulse, if the PWM driver accepts the pulse.
pub round-servo_us :
    (i : Input) (d : Device)
    → d.settings.servo_calibrated ≡ true
    → i.pwm_ok at_idle ≡ true
    → i.pwm_ok at_update ≡ true
    → Idle (round i d).0
    → (round i d).0.servo_us ≡ d.settings.closed_us
unfolding round
round-servo_us i d c p q h =
    let (d₁, r) = sense i d in
    let kept = sense-SameRequests i d in
    let e : d₁.settings ≡ d.settings = kept.0 in
    let c₁ : d₁.settings.servo_calibrated ≡ true = rw e c in
    ground (arith, (close_for_update-Idle i r d₁).2, serve-servo_us i r d₁)

-- A pour of either kind or a servo test goes on.
abbrev pub Busy : Device → Type 0
Busy d = (pouring_active d ≡ true) ⊎ (d.manual_deadline ≢ 0)

-- A firmware update is on, a stop is asked for, the tap is locked while something that the web did
-- not start goes on, or the button is pressed while anything goes on.
abbrev pub StopCause : Input → Device → Type 0
StopCause i d =
    (d.firmware_updating ≡ true)
    ⊎ ((d.stop_requested ≡ true)
        ⊎ (((i.locked ≡ true) × (d.web_operation ≡ false) × Busy d)
            ⊎ (((read_button i d).1.pressed ≡ true) × Busy d)))

pub serve-Idle : (i : Input) (r : Seen) (d : Device) → must_stop i r d ≡ true → Idle (serve i r d).0
unfolding serve
serve-Idle i r d m =
    let (h, a, s, _) = handle_stop-Idle i r d m in
    let d₁ = (handle_stop i r d).0 in
    rw s ((finish-Idle i r (act i true r d₁) (act_stopped i r d₁ h a)).0)

must_stop_of_cause :
    (i : Input) (r : Seen) (d : Device)
    → (d.stop_requested ≡ true)
      ⊎ (((i.locked ≡ true)
            × (d.web_operation ≡ false)
            × ((r.was ≡ true) ⊎ (d.manual_deadline ≢ 0)))
          ⊎ ((r.event.pressed ≡ true) × ((r.was ≡ true) ⊎ (d.manual_deadline ≢ 0))))
    → must_stop i r d ≡ true
unfolding must_stop
must_stop_of_cause i r d c = ground arith

-- A firmware update, a request to stop, a lock without an operation from the web while the tap
-- pours or runs a servo test, and a press of the button while it does so each end the pour, the
-- manual fill and the servo test in the same round, whatever else the round reads.
pub round-Idle : (i : Input) (d : Device) → StopCause i d → Idle (round i d).0
unfolding round
round-Idle i d c =
    let (d₁, r) = sense i d in
    let kept = sense-SameRequests i d in
    let w = sense-was i d in
    let e = sense-event i d in
    ground (arith, close_for_update-Idle i r d₁, serve-Idle i r d₁, must_stop_of_cause i r d₁)
