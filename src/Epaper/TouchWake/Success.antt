-- ===== src/Epaper/TouchWake/Success.antt =====
-- touch_wake.c, `touch_wake_calibrate`: a calibration that succeeds.
use keg_scale_espdisplay.Prelude.{
  ℕ, ◌≡◌, refl, sym, ap, ◌∙◌, subst, true, false, Option, none, some, arith,
}
use keg_scale_espdisplay.Esp.{Err, ◌and_then◌, and_then-ran}
use keg_scale_espdisplay.Epaper.TouchWake.{
  Driver, World, Touch, drop_context, touch_context_create, touch_context_destroy,
  touch_context_enable,
}
use keg_scale_espdisplay.Epaper.TouchWake.Sampling.{trimmed_mean, report_progress}
use keg_scale_espdisplay.Epaper.TouchWake.Calibrate.{
  none_failed, Calibration, no_calibration, Run, measure_baseline, touch_and_hold, measure_touch,
  release_level, release, verify_tap, conclude, stages, with_enabled, with_context, when_reported,
  touch_wake_calibrate,
}
use keg_scale_espdisplay.Epaper.TouchWake.Touches.{Saw}
use keg_scale_espdisplay.Epaper.TouchWake.Contract.{Quiet, Clear, touch_level, Verified, Calibrated}
use keg_scale_espdisplay.Epaper.TouchWake.Readings.{
  reads, measure_baseline-ran, touch_and_hold-ran, measure_touch-ran, release-ran, verify_tap-ran,
}

module _ (d : Driver) where
  steps-Calibrated :
      (r r₁ r₂ r₃ r₄ r₅ r₆ s : Run)
      → measure_baseline d r ≡ (r₁, none)
      → touch_and_hold d r₁ ≡ (r₂, none)
      → measure_touch d r₂ ≡ (r₃, none)
      → release d r₃ ≡ (r₄, none)
      → verify_tap d 0 r₄ ≡ (r₅, none)
      → verify_tap d 1 r₅ ≡ (r₆, none)
      → verify_tap d 2 r₆ ≡ (s, none)
      → Calibrated d (reads r) s.result (reads s)
  unfolding release_level
  steps-Calibrated r r₁ r₂ r₃ r₄ r₅ r₆ s e₁ holds touches freed start next last =
      let (quiet, base, n₁) = measure_baseline-ran d r r₁ e₁ in
      let (c₂, held) = touch_and_hold-ran d r₁ r₂ holds in
      let (xs, (percent, c₃), clear, l, from, n₃) =
        measure_touch-ran d r₂ r₃ (subst Quiet (sym c₂) quiet) touches in
      let (c₄, released) = release-ran d r₃ r₄ freed in
      let (c₅, tap_1) = verify_tap-ran d 0 r₄ r₅ start in
      let (c₆, tap_2) = verify_tap-ran d 1 r₅ r₆ next in
      let (c₇, tap_3) = verify_tap-ran d 2 r₆ s last in
      let touched = (trimmed_mean xs).mean in
      let with_touch =
        λ (c : Calibration). record c { touched_value = touched; threshold_percent = percent } in
      let at = λ (n : ℕ) (c : Calibration). record c { verified_touches = n } in
      let m₃ : r₃.result ≡ with_touch r₁.result = c₃ ∙ ap with_touch c₂ in
      let m₄ : r₄.result ≡ with_touch r₁.result = c₄ ∙ m₃ in
      let m₅ : r₅.result ≡ at 1 (with_touch r₁.result) = c₅ ∙ ap (at 1) m₄ in
      let m₆ : r₆.result ≡ at 2 (with_touch r₁.result) = c₆ ∙ ap (at 2) m₅ in
      let m₇ : s.result ≡ at 3 (with_touch r₁.result) = c₇ ∙ ap (at 3) m₆ in
      subst (λ c. Calibrated d (reads r) c (reads s)) (sym m₇)
        (record {
          quiet = quiet;
          clear = subst Clear m₃ clear;
          baseline = base;
          held_at = reads r₂;
          held = subst (λ i. Saw d (touch_level r₁.result) true i (reads r₂)) n₁ held;
          touched = (xs, l, from, refl);
          released_at = reads r₄;
          released =
              subst (λ i. Saw d (release_level r₁.result) false i (reads r₄)) n₃
                (subst (λ c. Saw d (release_level c) false (reads r₃) (reads r₄)) m₃ released);
          first = reads r₅;
          second = reads r₆;
          tap_1 = subst (λ c. Verified d c (reads r₄) (reads r₅)) m₄ tap_1;
          tap_2 = subst (λ c. Verified d c (reads r₅) (reads r₆)) m₅ tap_2;
          tap_3 = subst (λ c. Verified d c (reads r₆) (reads s)) m₆ tap_3;
          counted_taps = refl;
        })

  stages-Calibrated :
      (r s : Run) → stages d r ≡ (s, none) → Calibrated d (reads r) s.result (reads s)
  unfolding stages
  stages-Calibrated r s h =
      let s₁ = measure_baseline d r in
      let s₂ = s₁ and_then (λ r. touch_and_hold d r) in
      let s₃ = s₂ and_then (λ r. measure_touch d r) in
      let s₄ = s₃ and_then (λ r. release d r) in
      let s₅ = s₄ and_then (λ r. verify_tap d 0 r) in
      let s₆ = s₅ and_then (λ r. verify_tap d 1 r) in
      let (r₆, e₆, last) = and_then-ran s₆ (λ r. verify_tap d 2 r) s h in
      let (r₅, e₅, next) = and_then-ran s₅ (λ r. verify_tap d 1 r) r₆ e₆ in
      let (r₄, e₄, start) = and_then-ran s₄ (λ r. verify_tap d 0 r) r₅ e₅ in
      let (r₃, e₃, freed) = and_then-ran s₃ (λ r. release d r) r₄ e₄ in
      let (r₂, e₂, touches) = and_then-ran s₂ (λ r. measure_touch d r) r₃ e₃ in
      let (r₁, e₁, holds) = and_then-ran s₁ (λ r. touch_and_hold d r) r₂ e₂ in
      steps-Calibrated r r₁ r₂ r₃ r₄ r₅ r₆ s e₁ holds touches freed start next last

  concluded :
      (from to : ℕ) (c : Calibration)
      → Calibrated d from c to
      → Calibrated d from (record c { failure = none_failed }) to
  unfolding release_level
  concluded from to c k = record {
    quiet = k.quiet;
    clear = k.clear;
    baseline = k.baseline;
    held_at = k.held_at;
    held = k.held;
    touched = k.touched;
    released_at = k.released_at;
    released = k.released;
    first = k.first;
    second = k.second;
    tap_1 = k.tap_1;
    tap_2 = k.tap_2;
    tap_3 = k.tap_3;
    counted_taps = k.counted_taps;
  }

  -- What a successful end says of a run, which began after `from` readings.
  abbrev Ends : ℕ → Run × Option Err → Type 0
  Ends from x = x.1 ≡ none → Calibrated d from x.0.result (reads x.0)

  conclude-Ends :
      (from : ℕ) (x : Run × Option Err)
      → ((s : Run) → x ≡ (s, none) → Calibrated d from s.result (reads s))
      → Ends from (conclude d x)
  unfolding touch_context_destroy
  conclude-Ends from (r, none) k h = concluded from (reads r) r.result (k r refl)
  conclude-Ends from (r, some e) k h = absurd (ground (arith, h))

  with_enabled-Ends : (x : Touch × Option Err) → Ends x.0.world.read (with_enabled d x)
  with_enabled-Ends (t, some e) h = absurd (ground (arith, h))
  with_enabled-Ends (t, none) h =
      let r : Run = record { touch = t; result = no_calibration } in
      conclude-Ends t.world.read (stages d r) (stages-Calibrated r) h

  enable-read : (t : Touch) → (touch_context_enable d false t).0.world.read ≡ t.world.read
  unfolding touch_context_enable
  enable-read t = ground arith

  create-read : (w : World) → (touch_context_create d w).0.world.read ≡ w.read
  unfolding touch_context_create drop_context
  create-read w = ground arith

  with_context-Ends : (x : Touch × Option Err) → Ends x.0.world.read (with_context d x)
  with_context-Ends (t, some e) h = absurd (ground (arith, h))
  with_context-Ends (t, none) h =
      let x = touch_context_enable d false t in
      subst (λ n. Ends n (with_enabled d x)) (enable-read t) (with_enabled-Ends x) h

  when_reported-Ends : (x : World × Option Err) → Ends x.0.read (when_reported d x)
  when_reported-Ends (w, some e) h = absurd (ground (arith, h))
  when_reported-Ends (w, none) h =
      let x = touch_context_create d w in
      subst (λ n. Ends n (with_context d x)) (create-read w) (with_context-Ends x) h

  -- A calibration that reports ESP_OK has seen every step of the user, in this order: after 64
  -- readings, of which the last 32 give the baseline and the noise, three readings in a row at the
  -- level of a touch or below; 16 readings, which give the touched value; three in a row at the
  -- release level or above; and three times three in a row at the threshold that it found or below,
  -- followed by three at the release level or above. The noise leaves room for a touch, the touched
  -- value is below the baseline by the smallest signal at least, the threshold is between 1 and 40
  -- percent, and three touches are counted.
  pub touch_wake_calibrate-Calibrated :
      (w : World)
      → (touch_wake_calibrate d w).1 ≡ none
      → (let r = (touch_wake_calibrate d w).0 in Calibrated d w.read r.result r.touch.world.read)
  unfolding touch_wake_calibrate report_progress
  touch_wake_calibrate-Calibrated w h = when_reported-Ends (report_progress d w) h
