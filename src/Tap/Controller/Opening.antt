-- ===== src/Tap/Controller/Opening.antt =====
-- controller_task: what a round needs to open the tap, and that it opens it in one way only.
use keg_scale_espdisplay.Tap.Controller.{
  must_stop, stop_now, take_request, handle_stop, finish, act, serve, round,
}
use keg_scale_espdisplay.Tap.Sense.{Seen, sense}
use keg_scale_espdisplay.Prelude.{
  ℕ, ◌<◌, ◌≡◌, refl, sym, ◌∙◌, ◌⊎◌, inl, inr, Bool, true, false, Option, none, some, List, [], ◌∷◌,
  arith,
}
use keg_scale_espdisplay.Tap.Settings.{stable_distance}
use keg_scale_espdisplay.Tap.Control.{stop, ready, is_fresh, start}
use keg_scale_espdisplay.Tap.Target.{target_ready, half_ready}
use keg_scale_espdisplay.Tap.Device.{
  Kind, begin_pour, test_servo, close_tap, begin_half, Action, Device, pouring_active, Input,
}
use keg_scale_espdisplay.Tap.Actions.{
  close_after_pour, end_test, next_action, open_for, do_start, dispatch, handle_action, is_some,
  may_hold, begin_hold, handle_hold,
}
use keg_scale_espdisplay.Tap.Controller.Closing.{close_for_update-Idle, handle_action-settings}
use keg_scale_espdisplay.Tap.Controller.Phases.{Shut, sense-SameRequests, sense-was, sense-Shut}

-- The cup and the calibration that a pour needs: five steady readings, and a fresh one above the
-- cutoff, both raw and filtered.
abbrev pub CupStands : Input → Device → Type 0
CupStands i d =
    (ready d.settings i.now d.control ≡ true)
    × (is_fresh d.settings d.sample i.now ≡ true)
    × (d.settings.stop_mm < d.sample.mm)
    × (d.settings.stop_mm < stable_distance d.sample)

-- No web setup, no servo test and no saving of a pour.
abbrev pub Free : Input → Device → Type 0
Free i d = (i.setup_mode ≡ false) × (i.history_saving ≡ false) × (d.manual_deadline ≡ 0)

module _ (i : Input) (d : Device) (s : Shut d) where
  open_for-Shut :
      (half web : Bool) (target : ℕ)
      → (ready d.settings i.now d.control ≡ true) ⊎ Shut (open_for i half web target d)
  unfolding open_for start ready
  open_for-Shut half web target = ground arith

  do_start-Shut : (half : Bool) (a : Action) → CupStands i d ⊎ Shut (do_start i half a d)
  unfolding do_start half_ready target_ready
  do_start-Shut half a = ground (
    arith,
    open_for-Shut half a.from_web d.half_stop_mm,
    open_for-Shut half a.from_web d.settings.stop_mm,
  )

  dispatch-Shut : (k : Kind) (a : Action) → (Free i d × CupStands i d) ⊎ Shut (dispatch i k a d)
  unfolding dispatch
  dispatch-Shut close_tap a = inr (ground arith)
  dispatch-Shut test_servo a = inr (ground arith)
  dispatch-Shut begin_pour a = ground (arith, do_start-Shut false a)
  dispatch-Shut begin_half a = ground (arith, do_start-Shut true a)

  handle_action-Shut :
      (stopped : Bool) (o : Option Action)
      → ((stopped ≡ false) × Free i d × CupStands i d) ⊎ Shut (handle_action i stopped o d)
  unfolding handle_action
  handle_action-Shut stopped none = inr s
  handle_action-Shut stopped (some a) = ground (arith, dispatch-Shut a.kind a)

  begin_hold-Shut : (may_hold i d ≡ true) ⊎ Shut (begin_hold i d)
  unfolding begin_hold
  begin_hold-Shut = ground arith

  handle_hold-Shut :
      (stopped got : Bool) (r : Seen)
      → ((stopped ≡ false) × (r.event.long_press ≡ true) × (may_hold i d ≡ true))
        ⊎ Shut (handle_hold i stopped got r d)
  unfolding handle_hold
  handle_hold-Shut stopped got r = ground (arith, begin_hold-Shut)

module _ (i : Input) (d : Device) where
  finish-Shut : Shut d → Shut (finish i d)
  unfolding finish
  finish-Shut s = ground arith

  end_test-Shut : Shut d → Shut (end_test i d)
  unfolding end_test stop
  end_test-Shut s = ground arith

  end_test-CupStands :
      CupStands i (end_test i d) → CupStands i d × ((end_test i d).settings ≡ d.settings)
  unfolding end_test stop ready
  end_test-CupStands h = ground arith

  end_test-settings : (end_test i d).settings ≡ d.settings
  unfolding end_test
  end_test-settings = ground arith

  pub next_action-Shut :
      (stopped : Bool) (r : Seen) (queue : List Action)
      → d.actions ≡ queue
      → let d' = (next_action stopped r d).0 in
        (d'.control ≡ d.control)
        × (d'.manual_hold ≡ d.manual_hold)
        × (d'.settings ≡ d.settings)
        × (d'.sample ≡ d.sample)
        × (d'.manual_deadline ≡ d.manual_deadline)
  unfolding next_action
  next_action-Shut stopped r [] e = ground arith
  next_action-Shut stopped r (a ∷ rest) e = ground arith

-- What opens the tap in a round whose start has left `d`.
abbrev pub MayOpen : Input → Seen → Device → Type 0
MayOpen i r d =
    (i.setup_mode ≡ false)
    × (i.history_saving ≡ false)
    × (d.settings.servo_calibrated ≡ true)
    × (CupStands i d ⊎ ((r.event.long_press ≡ true) × (i.locked ≡ false)))

pub close_after_pour-same :
    (i : Input) (r : Seen) (d : Device) → r.was ≡ false → close_after_pour i r d ≡ d
unfolding close_after_pour
close_after_pour-same i r d w = ground arith

-- The cup that an action finds is the one that stood before the end of a test and the queue.
CupStands-back :
    (i : Input) (stopped : Bool) (r : Seen) (d : Device)
    → CupStands i (next_action stopped r (end_test i d)).0
    → CupStands i d × (d.settings.servo_calibrated ≡ true)
unfolding ready
CupStands-back i stopped r d h =
    let d₁ = end_test i d in
    let k = next_action-Shut i d₁ stopped r d₁.actions refl in
    let c : CupStands i d₁ = ground arith in
    let b = (end_test-CupStands i d c).0 in (b, ground arith)

may_hold-MayOpen :
    (i : Input) (r : Seen) (d d' : Device)
    → d'.settings ≡ d.settings
    → r.event.long_press ≡ true
    → may_hold i d' ≡ true
    → MayOpen i r d
unfolding may_hold
may_hold-MayOpen i r d d' e l h = ground arith

act-Shut :
    (i : Input) (stopped : Bool) (r : Seen) (d : Device)
    → Shut d
    → r.was ≡ false
    → ((stopped ≡ false) × MayOpen i r d) ⊎ Shut (act i stopped r d)
unfolding act
act-Shut i stopped r d s w = rw (close_after_pour-same i r d w) (
    let d₁ = end_test i d in
    let (d₂, a) = next_action stopped r d₁ in
    let k = next_action-Shut i d₁ stopped r d₁.actions refl in
    let s₁ = end_test-Shut i d s in
    let s₂ : Shut d₂ = ground arith in
    let d₃ = handle_action i stopped a d₂ in
    let e = handle_action-settings i d₂ stopped a ∙ k.2 ∙ end_test-settings i d in
    elim (handle_action-Shut i d₂ s₂ stopped a) [
      | inl (f, free, cup) ↦
          let (c, v) = CupStands-back i stopped r d cup in inl (f, (free.0, free.1, v, inl c))
      | inr s₃ ↦ elim (handle_hold-Shut i d₃ s₃ stopped (is_some a) r) [
        | inl (f, l, m) ↦ inl (f, may_hold-MayOpen i r d d₃ e l m)
        | inr z ↦ inr z
      ]
    ])

handle_stop-Shut :
    (i : Input) (r : Seen) (d : Device)
    → Shut d
    → Shut (handle_stop i r d).0
      × ((handle_stop i r d).1 ≡ must_stop i r d)
      × (must_stop i r d ≡ false → MayOpen i r (handle_stop i r d).0 → MayOpen i r d)
unfolding handle_stop take_request stop_now
handle_stop-Shut i r d s = (ground arith, ground arith, λ m h. ground arith)

serve-Shut :
    (i : Input) (r : Seen) (d : Device)
    → Shut d
    → r.was ≡ false
    → ((must_stop i r d ≡ false) × MayOpen i r d) ⊎ Shut (serve i r d).0
unfolding serve
serve-Shut i r d s w =
    let (s₁, e, back) = handle_stop-Shut i r d s in
    let (d₁, stopped) = handle_stop i r d in
    elim (act-Shut i stopped r d₁ s₁ w) [
      | inl (f, m) ↦ let n = sym e ∙ f in inl (n, back n m)
      | inr z ↦ inr (finish-Shut i (act i stopped r d₁) z)
    ]

stop_requested-must_stop :
    (i : Input) (r : Seen) (d : Device) → must_stop i r d ≡ false → d.stop_requested ≡ false
unfolding must_stop
stop_requested-must_stop i r d h = ground arith

pub was-Shut : (i : Input) (d : Device) → Shut d → (sense i d).1.was ≡ false
unfolding pouring_active
was-Shut i d s = rw (sense-was i d) (ground arith)

-- A closed tap stays closed over a round, or there is no firmware update, no stop request, no web
-- setup and no saving of a pour, the servo is calibrated, and either a cup stands (five steady
-- readings and a fresh one above the cutoff, with the distance calibrated) or the unlocked button
-- has been held down.
pub round-MayOpen :
    (i : Input) (d : Device)
    → Shut d
    → Shut (round i d).0
      ⊎ ((d.firmware_updating ≡ false)
          × (d.stop_requested ≡ false)
          × MayOpen i (sense i d).1 (sense i d).0)
unfolding round
round-MayOpen i d s =
    let (d₁, r) = sense i d in
    let w : r.was ≡ false = was-Shut i d s in
    let kept = sense-SameRequests i d in
    ground (
      arith,
      close_for_update-Idle i r d₁,
      serve-Shut i r d₁ (sense-Shut i d s) w,
      stop_requested-must_stop i r d₁,
    )
