-- ===== src/Epaper/TouchWake/Keeping.antt =====
-- touch_wake.c, `touch_wake_calibrate`: what its stages leave as it is.
use keg_scale_espdisplay.Esp.{Err, and_then-keeps}
use keg_scale_espdisplay.Epaper.TouchWake.Stages.{stages-keeps}
use keg_scale_espdisplay.Epaper.TouchWake.Calibrate.{
  settle_samples, baseline_samples, touched_samples, action_timeout_ms, Calibration, Run, waited,
  detection_drop, with_baseline, after_settling, measure_baseline, wait_if_reported, touch_and_hold,
  with_touched, measure_touch, release_level, release, counted, wait_for_tap, verify_tap, stages,
}
use keg_scale_espdisplay.Prelude.{
  ℕ, zero, suc, ◌+◌, ◌-◌, ◌≡◌, refl, ◌∙◌, inl, inr, Bool, true, false, Option, none, some, List, [],
  ◌∷◌, ◌++◌, arith, add32,
}
use keg_scale_espdisplay.Epaper.TouchWake.{Driver, World, wake_threshold}
use keg_scale_espdisplay.Epaper.TouchWake.Sampling.{
  read_touch_value, Reading-cases, read_samples, report_progress, look, wait_from, ms_to_ticks,
  wait_for_state,
}

-- What is open.
abbrev pub handles : World → ℕ × ℕ × ℕ × ℕ
handles w = (w.controllers, w.channels, w.enables, w.scannings)

module _ (d : Driver) where
  read_samples-handles :
      (n : ℕ) (samples : List ℕ) (w : World) → handles (read_samples d n samples w).0.0 ≡ handles w
  unfolding read_samples
  read_samples-handles zero samples w = refl
  read_samples-handles (suc n) samples w =
      let w₁ = (read_touch_value d w).0 in
      elim (Reading-cases (d.readings w.read)) [
        | inl (v, e) ↦ rw e (read_samples-handles n (samples ++ v ∷ []) w₁)
        | inr (x, e) ↦ rw e refl
      ]

  wait_from-handles :
      (threshold : ℕ) (touched : Bool) (deadline fuel consecutive : ℕ) (w : World)
      → handles (wait_from d threshold touched deadline fuel consecutive w).0 ≡ handles w
  unfolding wait_from
  wait_from-handles threshold touched deadline zero consecutive w = refl
  wait_from-handles threshold touched deadline (suc fuel) consecutive w =
      let w₂ = (read_touch_value d (look d w).0).0 in
      let again = wait_from-handles threshold touched deadline fuel (consecutive + 1) w₂ in
      let anew = wait_from-handles threshold touched deadline fuel 0 w₂ in
      elim (Reading-cases (d.readings w.read)) [
        | inl (v, e) ↦ rw e (ground (arith, again, anew))
        | inr (x, e) ↦ rw e (ground arith)
      ]

  wait_for_state-handles :
      (threshold : ℕ) (touched : Bool) (timeout_ms : ℕ) (w : World)
      → handles (wait_for_state d threshold touched timeout_ms w).0 ≡ handles w
  unfolding wait_for_state
  wait_for_state-handles threshold touched timeout_ms w =
      wait_from-handles threshold touched (add32 (look d w).1 (ms_to_ticks d timeout_ms))
        (suc (ms_to_ticks d timeout_ms)) 0 (look d w).0

  report_progress-handles : (w : World) → handles (report_progress d w).0 ≡ handles w
  unfolding report_progress
  report_progress-handles w = refl

  wait_if_reported-handles :
      (threshold : ℕ) (touched : Bool) (x : World × Option Err)
      → handles (wait_if_reported d threshold touched x).0 ≡ handles x.0
  wait_if_reported-handles threshold touched (w, none) =
      wait_for_state-handles threshold touched action_timeout_ms w
  wait_if_reported-handles threshold touched (w, some e) = refl

-- The second run has the context and the open handles of the first.
abbrev pub Kept : Run → Run → Type 0
Kept r s = (s.touch.context ≡ r.touch.context) × (handles s.touch.world ≡ handles r.touch.world)

Kept-then : (r s t : Run) → Kept r s → Kept s t → Kept r t
Kept-then r s t h k = (k.0 ∙ h.0, k.1 ∙ h.1)

waited-Kept :
    (r : Run) (x : World × Option Err) → handles x.0 ≡ handles r.touch.world → Kept r (waited r x).0
waited-Kept r (w, none) h = (refl, h)
waited-Kept r (w, some e) h = (refl, h)

with_baseline-Kept :
    (r : Run) (x : (World × List ℕ) × Option Err)
    → handles x.0.0 ≡ handles r.touch.world
    → Kept r (with_baseline r x).0
with_baseline-Kept r ((w, samples), some e) h = (refl, h)
with_baseline-Kept r ((w, samples), none) h = ground (arith, h)

with_touched-Kept :
    (r : Run) (x : (World × List ℕ) × Option Err)
    → handles x.0.0 ≡ handles r.touch.world
    → Kept r (with_touched r x).0
with_touched-Kept r ((w, samples), some e) h = (refl, h)
with_touched-Kept r ((w, samples), none) h = ground (arith, h)

counted-Kept : (tap : ℕ) (r : Run) (x : Run × Option Err) → Kept r x.0 → Kept r (counted tap x).0
counted-Kept tap r (s, some e) h = h
counted-Kept tap r (s, none) h = h

module _ (d : Driver) where
  after_settling-Kept :
      (r : Run) (x : (World × List ℕ) × Option Err)
      → handles x.0.0 ≡ handles r.touch.world
      → Kept r (after_settling d r x).0
  after_settling-Kept r ((w, samples), some e) h = (refl, h)
  after_settling-Kept r ((w, samples), none) h =
      with_baseline-Kept r (read_samples d baseline_samples [] w)
        (read_samples-handles d baseline_samples [] w ∙ h)

  measure_baseline-Kept : (r : Run) → Kept r (measure_baseline d r).0
  unfolding measure_baseline
  measure_baseline-Kept r =
      after_settling-Kept r (read_samples d settle_samples [] r.touch.world)
        (read_samples-handles d settle_samples [] r.touch.world)

  wait_reported-Kept :
      (threshold : ℕ) (touched : Bool) (r : Run)
      → Kept r (waited r (wait_if_reported d threshold touched (report_progress d r.touch.world))).0
  wait_reported-Kept threshold touched r =
      let x = report_progress d r.touch.world in
      waited-Kept r (wait_if_reported d threshold touched x)
        (wait_if_reported-handles d threshold touched x ∙ report_progress-handles d r.touch.world)

  touch_and_hold-Kept : (r : Run) → Kept r (touch_and_hold d r).0
  unfolding touch_and_hold
  touch_and_hold-Kept r =
      let c = r.result in
      wait_reported-Kept (c.untouched_value - detection_drop c.untouched_value c.noise_span) true r

  measure_touch-Kept : (r : Run) → Kept r (measure_touch d r).0
  unfolding measure_touch
  measure_touch-Kept r =
      with_touched-Kept r (read_samples d touched_samples [] r.touch.world)
        (read_samples-handles d touched_samples [] r.touch.world)

  release-Kept : (r : Run) → Kept r (release d r).0
  unfolding release
  release-Kept r = wait_reported-Kept (release_level r.result) false r

  wait_for_tap-handles : (c : Calibration) (w : World) → handles (wait_for_tap d c w).0 ≡ handles w
  unfolding wait_for_tap
  wait_for_tap-handles c w =
      let level = wake_threshold c.untouched_value c.threshold_percent in
      and_then-keeps (λ v. handles v ≡ handles w)
        (wait_if_reported d level true (report_progress d w))
        (λ w. wait_if_reported d (release_level c) false (report_progress d w))
        (wait_if_reported-handles d level true (report_progress d w) ∙ report_progress-handles d w)
        (λ v h.
          wait_if_reported-handles d (release_level c) false (report_progress d v)
          ∙ report_progress-handles d v
          ∙ h)

  verify_tap-Kept : (tap : ℕ) (r : Run) → Kept r (verify_tap d tap r).0
  unfolding verify_tap
  verify_tap-Kept tap r =
      let x = wait_for_tap d r.result r.touch.world in
      counted-Kept tap r (waited r x)
        (waited-Kept r x (wait_for_tap-handles r.result r.touch.world))

  pub stages-Kept : (r : Run) → Kept r (stages d r).0
  stages-Kept r =
      stages-keeps d (Kept r)
        (λ s h. Kept-then r s (measure_baseline d s).0 h (measure_baseline-Kept s))
        (λ s h. Kept-then r s (touch_and_hold d s).0 h (touch_and_hold-Kept s))
        (λ s h. Kept-then r s (measure_touch d s).0 h (measure_touch-Kept s))
        (λ s h. Kept-then r s (release d s).0 h (release-Kept s))
        (λ tap s h. Kept-then r s (verify_tap d tap s).0 h (verify_tap-Kept tap s)) r (refl, refl)
