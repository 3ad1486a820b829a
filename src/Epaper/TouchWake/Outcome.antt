-- ===== src/Epaper/TouchWake/Outcome.antt =====
-- touch_wake.c, `touch_wake_calibrate`: what the result says of the calibration.
use keg_scale_espdisplay.Prelude.{
  ℕ, ◌-◌, ◌≡◌, refl, ◌↔◌, Bool, true, false, not, Option, none, some, List, [], arith,
}
use keg_scale_espdisplay.Esp.{Err, is_ok}
use keg_scale_espdisplay.Epaper.TouchWake.{
  Driver, World, Touch, touch_context_create, touch_context_enable,
}
use keg_scale_espdisplay.Epaper.TouchWake.Sampling.{read_samples, report_progress}
use keg_scale_espdisplay.Epaper.TouchWake.Calibrate.{
  settle_samples, baseline_samples, touched_samples, Failure, none_failed, timed_out, noisy,
  weak_signal, hardware, no_calibration, Run, failure_of, waited, detection_drop, with_baseline,
  after_settling, measure_baseline, wait_if_reported, touch_and_hold, with_touched, measure_touch,
  release_level, release, counted, wait_for_tap, verify_tap, conclude, stages, with_enabled,
  with_context, when_reported, touch_wake_calibrate,
}
use keg_scale_espdisplay.Epaper.TouchWake.Stages.{stages-keeps}

abbrev is_failure : Failure → Bool
is_failure none_failed = false
is_failure timed_out = true
is_failure noisy = true
is_failure weak_signal = true
is_failure hardware = true

-- The run's result names a failure.
abbrev NamesFailure : Run → Type 0
NamesFailure r = is_failure r.result.failure ≡ true

failure_of-failure : (e : Err) → is_failure (failure_of e) ≡ true
failure_of-failure e = ground arith

waited-NamesFailure :
    (r : Run) (x : World × Option Err) → NamesFailure r → NamesFailure (waited r x).0
waited-NamesFailure r (w, none) h = h
waited-NamesFailure r (w, some e) h = failure_of-failure e

with_baseline-NamesFailure :
    (r : Run) (x : (World × List ℕ) × Option Err)
    → NamesFailure r
    → NamesFailure (with_baseline r x).0
with_baseline-NamesFailure r ((w, samples), some e) h = h
with_baseline-NamesFailure r ((w, samples), none) h = ground (arith, h)

with_touched-NamesFailure :
    (r : Run) (x : (World × List ℕ) × Option Err)
    → NamesFailure r
    → NamesFailure (with_touched r x).0
with_touched-NamesFailure r ((w, samples), some e) h = refl
with_touched-NamesFailure r ((w, samples), none) h = ground (arith, h)

counted-NamesFailure :
    (tap : ℕ) (x : Run × Option Err) → NamesFailure x.0 → NamesFailure (counted tap x).0
counted-NamesFailure tap (r, none) h = h
counted-NamesFailure tap (r, some e) h = h

module _ (d : Driver) where
  after_settling-NamesFailure :
      (r : Run) (x : (World × List ℕ) × Option Err)
      → NamesFailure r
      → NamesFailure (after_settling d r x).0
  after_settling-NamesFailure r ((w, samples), some e) h = h
  after_settling-NamesFailure r ((w, samples), none) h =
      with_baseline-NamesFailure r (read_samples d baseline_samples [] w) h

  stages-NamesFailure : (r : Run) → NamesFailure r → NamesFailure (stages d r).0
  unfolding measure_baseline touch_and_hold measure_touch release verify_tap
  stages-NamesFailure =
      stages-keeps d NamesFailure
        (λ r h. after_settling-NamesFailure r (read_samples d settle_samples [] r.touch.world) h)
        (λ r h.
          waited-NamesFailure r
            (wait_if_reported d
              (r.result.untouched_value
                - detection_drop r.result.untouched_value r.result.noise_span)
              true (report_progress d r.touch.world))
            h)
        (λ r h. with_touched-NamesFailure r (read_samples d touched_samples [] r.touch.world) h)
        (λ r h.
          waited-NamesFailure r
            (wait_if_reported d (release_level r.result) false (report_progress d r.touch.world)) h)
        (λ tap r h.
          counted-NamesFailure tap (waited r (wait_for_tap d r.result r.touch.world))
            (waited-NamesFailure r (wait_for_tap d r.result r.touch.world) h))

  conclude-names :
      (x : Run × Option Err)
      → NamesFailure x.0
      → is_failure (conclude d x).0.result.failure ≡ not (is_ok (conclude d x).1)
  conclude-names (r, none) h = refl
  conclude-names (r, some e) h = h

  with_enabled-names :
      (x : Touch × Option Err)
      → is_failure (with_enabled d x).0.result.failure ≡ not (is_ok (with_enabled d x).1)
  with_enabled-names (t, some e) = refl
  with_enabled-names (t, none) =
      let r : Run = record { touch = t; result = no_calibration } in
      conclude-names (stages d r) (stages-NamesFailure r refl)

  with_context-names :
      (x : Touch × Option Err)
      → is_failure (with_context d x).0.result.failure ≡ not (is_ok (with_context d x).1)
  with_context-names (t, some e) = refl
  with_context-names (t, none) = with_enabled-names (touch_context_enable d false t)

  when_reported-names :
      (x : World × Option Err)
      → is_failure (when_reported d x).0.result.failure ≡ not (is_ok (when_reported d x).1)
  when_reported-names (w, some e) = refl
  when_reported-names (w, none) = with_context-names (touch_context_create d w)

  -- A calibration reports ESP_OK exactly where its result names no failure.
  pub touch_wake_calibrate-failure :
      (w : World)
      → ((touch_wake_calibrate d w).1 ≡ none)
        ↔ ((touch_wake_calibrate d w).0.result.failure ≡ none_failed)
  unfolding touch_wake_calibrate
  touch_wake_calibrate-failure w = ground (arith, when_reported-names (report_progress d w))
