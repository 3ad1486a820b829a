-- ===== src/Epaper/TouchWake/Readings.antt =====
-- touch_wake.c, `touch_wake_calibrate`: what each stage that succeeds has read and measured.
use keg_scale_espdisplay.Epaper.TouchWake.Sampling.{read_samples, trimmed_mean, report_progress}
use keg_scale_espdisplay.Prelude.{
  ℕ, ◌+◌, ◌-◌, ◌*◌, ◌/◌, ◌%◌, ◌^◌, ◌≤◌, ◌<◌, ◌≡◌, refl, sym, ap, ◌∙◌, subst, true, false, Option,
  none, some, List, [], arith, length,
}
use keg_scale_espdisplay.Epaper.TouchWake.Touches.{
  Saw, ReadFrom, wait_if_reported-Saw, read_samples-ran,
}
use keg_scale_espdisplay.Epaper.TouchWake.Contract.{Quiet, Clear, touch_level, Baseline, Verified}
use keg_scale_espdisplay.Esp.{Err, and_then-ran}
use keg_scale_espdisplay.Epaper.TouchWake.{Driver, World, Touch, wake_threshold}
use keg_scale_espdisplay.Epaper.TouchWake.Calibrate.{
  settle_samples, baseline_samples, touched_samples, Calibration, Run, waited, with_baseline,
  after_settling, measure_baseline, wait_if_reported, touch_and_hold, threshold_of, with_touched,
  measure_touch, release_level, release, counted, wait_for_tap, verify_tap,
}

percent-most : (u t : ℕ) → 0 < u → t * 5 ≤ u * 2 → (t * 100 + u - 1) / u ≤ 40
percent-most u t h k = grind arith

threshold_of-bounds : (u s : ℕ) → 0 < u → s ≤ u → (1 ≤ threshold_of u s) × (threshold_of u s ≤ 40)
unfolding threshold_of
threshold_of-bounds u s h k =
    let most = percent-most u (s * 2 % 2 ^ 32 / 5) h (omega (arith, k)) in ground (arith, most)

waited-ran :
    (r s : Run) (x : World × Option Err)
    → waited r x ≡ (s, none)
    → (s.result ≡ r.result) × (x ≡ (s.touch.world, none))
waited-ran r s (w, none) h = (
  ap (λ (x : Run × Option Err). x.0.result) (sym h),
  ap (λ (x : Run × Option Err). (x.0.touch.world, none)) h,
)
waited-ran r s (w, some e) h = absurd (ground (arith, h))

with_baseline-ran :
    (r s : Run) (x : (World × List ℕ) × Option Err)
    → with_baseline r x ≡ (s, none)
    → (xs : List ℕ) × (x ≡ ((s.touch.world, xs), none))
      × Quiet s.result
      × (s.result.untouched_value ≡ (trimmed_mean xs).mean)
      × (s.result.noise_span ≡ (trimmed_mean xs).maximum - (trimmed_mean xs).minimum)
with_baseline-ran r s ((w, samples), some e) h = absurd (ground (arith, h))
with_baseline-ran r s ((w, samples), none) h =
    let e : w ≡ s.touch.world = ground (arith, h) in
    (
      samples,
      ap (λ (v : World). ((v, samples), none)) e,
      ground (arith, h),
      ground (arith, h),
      ground (arith, h),
    )

-- The measurement changes the touched value and the threshold only.
abbrev pub Measures : Run → Run → List ℕ → Type 0
Measures r s xs =
    (percent : ℕ) × (let c = r.result in
      s.result ≡ record c { touched_value = (trimmed_mean xs).mean; threshold_percent = percent })

with_touched-ran :
    (r s : Run) (x : (World × List ℕ) × Option Err)
    → Quiet r.result
    → with_touched r x ≡ (s, none)
    → (xs : List ℕ) × (x ≡ ((s.touch.world, xs), none)) × Measures r s xs × Clear s.result
with_touched-ran r s ((w, samples), some e) q h = absurd (ground (arith, h))
with_touched-ran r s ((w, samples), none) q h =
    let u = r.result.untouched_value in
    let t = (trimmed_mean samples).mean in
    let bounds : t < u → (1 ≤ threshold_of u (u - t)) × (threshold_of u (u - t) ≤ 40) =
      λ l. threshold_of-bounds u (u - t) (omega (arith, l)) (omega arith) in
    let e : w ≡ s.touch.world = ground (arith, h) in
    (
      samples,
      ap (λ (v : World). ((v, samples), none)) e,
      (threshold_of u (u - t) % 256, ground (arith, h)),
      ground (arith, h, bounds),
    )

counted-ran :
    (tap : ℕ) (s : Run) (x : Run × Option Err)
    → counted tap x ≡ (s, none)
    → (x.1 ≡ none)
      × (s.touch ≡ x.0.touch)
      × (let c = x.0.result in s.result ≡ record c { verified_touches = tap + 1 })
counted-ran tap s (r, some e) h = absurd (ground (arith, h))
counted-ran tap s (r, none) h = (
  refl,
  ap (λ (x : Run × Option Err). x.0.touch) (sym h),
  ap (λ (x : Run × Option Err). x.0.result) (sym h),
)

-- The readings taken so far.
abbrev pub reads : Run → ℕ
reads r = r.touch.world.read

module _ (d : Driver) where
  after_settling-ran :
      (r s : Run) (x : (World × List ℕ) × Option Err)
      → after_settling d r x ≡ (s, none)
      → (v : World) × (xs : List ℕ) × (x ≡ ((v, xs), none))
        × (with_baseline r (read_samples d baseline_samples [] v) ≡ (s, none))
  after_settling-ran r s ((w, samples), some e) h = absurd (ground (arith, h))
  after_settling-ran r s ((w, samples), none) h = (w, samples, refl, h)

  pub measure_baseline-ran :
      (r s : Run)
      → measure_baseline d r ≡ (s, none)
      → Quiet s.result × Baseline d (reads r + 32) s.result × (reads s ≡ reads r + 64)
  unfolding measure_baseline
  measure_baseline-ran r s h =
      let w = r.touch.world in
      let (v, ys, e, then) = after_settling-ran r s (read_samples d settle_samples [] w) h in
      let (_, _, _, _, at) = read_samples-ran d settle_samples [] ys w v e in
      let (xs, f, q, mean, span) =
        with_baseline-ran r s (read_samples d baseline_samples [] v) then in
      let (zs, same_list, l, from, end) =
        read_samples-ran d baseline_samples [] xs v s.touch.world f in
      (
        q,
        (
          xs,
          rw same_list l,
          subst (λ i. ReadFrom d i xs) at (subst (ReadFrom d v.read) (sym same_list) from),
          mean,
          span,
        ),
        omega (arith, at, end),
      )

  pub touch_and_hold-ran :
      (r s : Run)
      → touch_and_hold d r ≡ (s, none)
      → (s.result ≡ r.result) × Saw d (touch_level r.result) true (reads r) (reads s)
  unfolding touch_and_hold
  touch_and_hold-ran r s h =
      let c = r.result in
      let (e, x) =
        waited-ran r s (wait_if_reported d (touch_level c) true (report_progress d r.touch.world))
          h in
      (e, wait_if_reported-Saw d (touch_level c) true r.touch.world s.touch.world x)

  pub measure_touch-ran :
      (r s : Run)
      → Quiet r.result
      → measure_touch d r ≡ (s, none)
      → (xs : List ℕ) × Measures r s xs
        × Clear s.result
        × (length xs ≡ 16)
        × ReadFrom d (reads r) xs
        × (reads s ≡ reads r + 16)
  unfolding measure_touch
  measure_touch-ran r s q h =
      let w = r.touch.world in
      let (xs, e, m, clear) = with_touched-ran r s (read_samples d touched_samples [] w) q h in
      let (zs, same_list, l, from, end) =
        read_samples-ran d touched_samples [] xs w s.touch.world e in
      (xs, m, clear, rw same_list l, subst (ReadFrom d w.read) (sym same_list) from, end)

  pub release-ran :
      (r s : Run)
      → release d r ≡ (s, none)
      → (s.result ≡ r.result) × Saw d (release_level r.result) false (reads r) (reads s)
  unfolding release
  release-ran r s h =
      let level = release_level r.result in
      let (e, x) =
        waited-ran r s (wait_if_reported d level false (report_progress d r.touch.world)) h in
      (e, wait_if_reported-Saw d level false r.touch.world s.touch.world x)

  wait_for_tap-Verified :
      (c : Calibration) (v w : World) → wait_for_tap d c v ≡ (w, none) → Verified d c v.read w.read
  unfolding wait_for_tap
  wait_for_tap-Verified c v w h =
      let level = wake_threshold c.untouched_value c.threshold_percent in
      let free = λ (u : World). wait_if_reported d (release_level c) false (report_progress d u) in
      let (m, e, frees) =
        and_then-ran (wait_if_reported d level true (report_progress d v)) free w h in
      (
        m.read,
        wait_if_reported-Saw d level true v m e,
        wait_if_reported-Saw d (release_level c) false m w frees,
      )

  pub verify_tap-ran :
      (tap : ℕ) (r s : Run)
      → verify_tap d tap r ≡ (s, none)
      → (let c = r.result in s.result ≡ record c { verified_touches = tap + 1 })
        × Verified d r.result (reads r) (reads s)
  unfolding verify_tap
  verify_tap-ran tap r s h =
      let wait = wait_for_tap d r.result r.touch.world in
      let x = waited r wait in
      let (ok, t, e) = counted-ran tap s x h in
      let (unchanged, done) = waited-ran r x.0 wait (ap (λ o. (x.0, o)) ok) in
      (
        e ∙ ap (λ (c : Calibration). record c { verified_touches = tap + 1 }) unchanged,
        subst (λ (u : Touch). Verified d r.result (reads r) u.world.read) (sym t)
            (wait_for_tap-Verified r.result r.touch.world x.0.touch.world done),
      )
