-- ===== src/Tap/Control/Safety.antt =====
-- control.h, `Control::update`: what a pour must satisfy to go on, and that nothing else opens the
-- tap.
use keg_scale_espdisplay.Prelude.{
  ℕ, ◌+◌, ◌≤◌, ◌<◌, ◌≡◌, ◌↔◌, ◌⊎◌, true, false, List, [], ◌∷◌, arith, sub32, abs_diff,
}
use keg_scale_espdisplay.Tap.Settings.{Settings, Sample}
use keg_scale_espdisplay.Tap.Control.{
  Control, startup_dropout_window_ms, startup_recovery_ms, reset_ready, stop, on_invalid,
  on_pouring, collect, on_idle, on_sample, update, run,
}

-- None of the three deadlines has passed.
abbrev pub InTime : Settings → ℕ → Control → Type 0
InTime c now k =
    (sub32 now k.started < c.max_pour_ms)
    × (sub32 now k.last_valid ≤ c.stale_ms)
    × ((k.startup_dropout_pending ≡ false) ⊎ (sub32 now k.started < startup_recovery_ms))

-- A fresh reading above the cutoff, inside the range and near the one before it.
abbrev pub Accepted : Settings → Sample → ℕ → Control → Type 0
Accepted c s now k =
    (s.valid ≡ true)
    × (sub32 now s.at ≤ c.stale_ms)
    × (c.stop_mm < s.mm)
    × (s.mm ≤ c.max_mm)
    × (s.mm + 20 < c.tray_mm)
    × ((k.previous ≡ 0) ⊎ (abs_diff s.mm k.previous ≤ c.jump_mm))

-- The one no-return reading that an opening tap is forgiven.
abbrev pub Forgiven : Settings → Sample → ℕ → Control → Type 0
Forgiven c s now k =
    (k.startup_dropout_used ≡ false)
    × (s.valid ≡ false)
    × (s.mm ≡ 65535)
    × (sub32 now k.started < startup_dropout_window_ms)
    × (sub32 now s.at ≤ c.stale_ms)

abbrev pub GoesOn : Settings → Sample → ℕ → Control → Type 0
GoesOn c s now k = (s.sequence ≡ k.seen) ⊎ (Accepted c s now k ⊎ Forgiven c s now k)

module _ (c : Settings) (s : Sample) (now : ℕ) (k : Control) where
  on_sample-GoesOn : (on_sample c s now k).pouring ≡ true → (k.pouring ≡ true) × GoesOn c s now k
  unfolding on_sample on_invalid on_pouring on_idle collect reset_ready stop
  on_sample-GoesOn h = ground arith

  GoesOn-on_sample : k.pouring ≡ true → GoesOn c s now k → (on_sample c s now k).pouring ≡ true
  unfolding on_sample on_invalid on_pouring
  GoesOn-on_sample p g = ground arith

  pub update-InTime :
      (update c s now k).pouring ≡ true
      → (k.pouring ≡ true) × InTime c now k × ((on_sample c s now k).pouring ≡ true)
  unfolding update
  update-InTime h = ground (arith, on_sample-GoesOn)

  InTime-update : k.pouring ≡ true → InTime c now k → update c s now k ≡ on_sample c s now k
  unfolding update
  InTime-update p t = ground arith

  -- A round leaves the tap open exactly when it was open, no deadline has passed, and the sample
  -- is the one already seen, an accepted reading, or the one forgiven no-return reading.
  pub update_pouring_iff :
      ((update c s now k).pouring ≡ true) ↔ ((k.pouring ≡ true) × InTime c now k × GoesOn c s now k)
  update_pouring_iff = (
    λ h. let t = update-InTime h in (t.0, t.1, (on_sample-GoesOn t.2).1),
    λ h. rw (InTime-update h.0 h.1) (GoesOn-on_sample h.0 h.2),
  )

pub update-started :
    (c : Settings) (s : Sample) (now : ℕ) (k : Control) → (update c s now k).started ≡ k.started
unfolding update on_sample on_invalid on_pouring on_idle collect reset_ready stop
update-started c s now k = ground arith

-- Every clock reading of the rounds satisfies the predicate.
abbrev pub Clocks : (ℕ → Type 0) → List (Sample × ℕ) → Type 0
Clocks P [] = Unit
Clocks P ((s, now) ∷ es) = P now × Clocks P es

-- If the tap is open after any rounds, it was open at their start, and at each of them less than
-- `max_pour_ms` had passed since it was opened.
pub run-pouring :
    (c : Settings) (es : List (Sample × ℕ)) (k : Control)
    → (run c es k).pouring ≡ true
    → (k.pouring ≡ true) × Clocks (λ now. sub32 now k.started < c.max_pour_ms) es
unfolding run
run-pouring c [] k h = (h, tt)
run-pouring c ((s, now) ∷ es) k h =
    let (p, rest) = run-pouring c es (update c s now k) h in
    let (q, t, _) = update-InTime c s now k p in (q, (t.0, rw (update-started c s now k) at rest))
