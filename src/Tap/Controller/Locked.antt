-- ===== src/Tap/Controller/Locked.antt =====
-- controller_task: the physical tap while the PIN lock is closed.
use keg_scale_espdisplay.Tap.Controller.{must_stop, take_request, handle_stop, act, serve, round}
use keg_scale_espdisplay.Tap.Controller.Closing.{
  close_for_update-Idle, end_test-Idle, finish-Idle, serve-Idle, round-Idle,
}
use keg_scale_espdisplay.Tap.Controller.Opening.{close_after_pour-same, was-Shut}
use keg_scale_espdisplay.Prelude.{
  ◌≡◌, refl, ◌∙◌, inl, inr, Bool, true, false, not, ◌&&◌, Option, none, some, List, [], ◌∷◌, arith,
  if◌then◌else◌, Bool-cases, All,
}
use keg_scale_espdisplay.Tap.Device.{
  Kind, begin_pour, test_servo, close_tap, begin_half, Action, Device, pouring_active, Input,
}
use keg_scale_espdisplay.Tap.Sense.{Seen, testing, sense}
use keg_scale_espdisplay.Tap.Actions.{next_action, do_close, handle_action, is_some, handle_hold}
use keg_scale_espdisplay.Tap.Controller.Phases.{Idle, Shut, sense-SameRequests, sense-Shut}

-- No queued action comes from the web.
abbrev pub AllLocal : List Action → Type 0
AllLocal = All (λ a. a.from_web ≡ false)

abbrev LocalAction : Option Action → Type 0
LocalAction none = Unit {0}
LocalAction (some a) = a.from_web ≡ false

choose_local :
    (b : Bool) (o : Option Action)
    → LocalAction o
    → LocalAction
        (if b then some (record { kind = begin_pour; pulse = 0; from_web = false }) else o)
choose_local true o l = refl
choose_local false o l = l

module _ (i : Input) (locked : i.locked ≡ true) (d : Device) (h : Idle d) where
  handle_local :
      (stopped : Bool) (k : Kind) (a : Action)
      → a.kind ≡ k
      → a.from_web ≡ false
      → Idle (handle_action i stopped (some a) d)
  unfolding handle_action do_close
  handle_local stopped close_tap a e l = ground arith
  handle_local stopped test_servo a e l = ground arith
  handle_local stopped begin_pour a e l = ground arith
  handle_local stopped begin_half a e l = ground arith

  handle_action-locked :
      (stopped : Bool) (o : Option Action) → LocalAction o → Idle (handle_action i stopped o d)
  unfolding handle_action
  handle_action-locked stopped none l = h
  handle_action-locked stopped (some a) l = handle_local stopped a.kind a refl l

  handle_hold-locked : (stopped got : Bool) (r : Seen) → Idle (handle_hold i stopped got r d)
  unfolding handle_hold
  handle_hold-locked stopped got r = ground arith

  next_action-locked :
      (stopped : Bool) (r : Seen) (queue : List Action)
      → d.actions ≡ queue
      → AllLocal queue
      → Idle (next_action stopped r d).0 × LocalAction (next_action stopped r d).1
  unfolding next_action
  next_action-locked stopped r [] e l =
      rw (e, next_action)
        (h, choose_local (r.event.short_press && not r.was && not stopped) none tt)
  next_action-locked stopped r (a ∷ rest) e l =
      rw (e, next_action)
        (h, choose_local (r.event.short_press && not r.was && not stopped) (some a) l.0)

module _ (i : Input) (locked : i.locked ≡ true) (r : Seen) (d : Device) (h : Idle d) where
  act-locked : (stopped : Bool) → r.was ≡ false → AllLocal d.actions → Idle (act i stopped r d)
  unfolding act
  act-locked stopped w l =
      rw (close_after_pour-same i r d w, end_test-Idle i r d h)
        (let (d₂, a) = next_action stopped r d in
          let (h₂, l₂) = next_action-locked i locked d h stopped r d.actions refl l in
          handle_hold-locked i locked (handle_action i stopped a d₂)
            (handle_action-locked i locked d₂ h₂ stopped a l₂) stopped (is_some a) r)

  handle_stop-locked :
      must_stop i r d ≡ false
      → Idle (handle_stop i r d).0 × ((handle_stop i r d).0.actions ≡ d.actions)
  unfolding handle_stop take_request
  handle_stop-locked m = ground arith

serve_of_act :
    (i : Input) (r : Seen) (d : Device)
    → Idle (act i (handle_stop i r d).1 r (handle_stop i r d).0)
    → Idle (serve i r d).0
unfolding serve
serve_of_act i r d h = (finish-Idle i r (act i (handle_stop i r d).1 r (handle_stop i r d).0) h).0

serve-locked :
    (i : Input) (r : Seen) (d : Device)
    → i.locked ≡ true
    → Idle d
    → r.was ≡ false
    → AllLocal d.actions
    → Idle (serve i r d).0
serve-locked i r d locked h w l = elim (Bool-cases (must_stop i r d)) [
  | inl m ↦ serve-Idle i r d m
  | inr m ↦
      let (h₁, e) = handle_stop-locked i locked r d h m in
      let (d₁, stopped) = handle_stop i r d in
      serve_of_act i r d (act-locked i locked r d₁ h₁ stopped w (rw e l))
]

round-Idle-locked :
    (i : Input) (d : Device) → i.locked ≡ true → Idle d → AllLocal d.actions → Idle (round i d).0
unfolding round
round-Idle-locked i d locked h l =
    let (d₁, r) = sense i d in
    let s : Shut d = (h.0, h.1) in
    let (a, b) = sense-Shut i d s in
    let (_, _, e, _, _, _, f, _) = sense-SameRequests i d in
    let k = serve-locked i r d₁ locked (a, b, f ∙ h.2) (was-Shut i d s) (rw e l) in
    ground (arith, close_for_update-Idle i r d₁)

-- While the lock is closed and nothing that the web started goes on, no round whose queued actions
-- are all local leaves the tap pouring, filling or testing the servo.
pub round-locked :
    (i : Input) (d : Device)
    → i.locked ≡ true
    → d.web_operation ≡ false
    → AllLocal d.actions
    → Idle (round i d).0
unfolding pouring_active
round-locked i d locked w l = elim (Bool-cases (pouring_active d)) [
  | inl p ↦ round-Idle i d (inr (inr (inl (locked, w, inl p))))
  | inr p ↦ elim (Bool-cases (testing d)) [
    | inl q ↦ round-Idle i d (inr (inr (inl (locked, w, inr (ground arith)))))
    | inr q ↦ round-Idle-locked i d locked (ground arith) l
  ]
]
