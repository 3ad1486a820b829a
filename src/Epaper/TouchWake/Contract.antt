-- ===== src/Epaper/TouchWake/Contract.antt =====
-- touch_wake.c, `touch_wake_calibrate`: what the caller may rely on.
use keg_scale_espdisplay.Epaper.TouchWake.Sampling.{trimmed_mean}
use keg_scale_espdisplay.Prelude.{ℕ, ◌+◌, ◌-◌, ◌≤◌, ◌<◌, ◌≡◌, true, false, List, length}
use keg_scale_espdisplay.Epaper.TouchWake.Touches.{Saw, Tap, ReadFrom}
use keg_scale_espdisplay.Epaper.TouchWake.{Driver, wake_threshold}
use keg_scale_espdisplay.Epaper.TouchWake.Calibrate.{
  Calibration, detection_drop, minimum_signal, release_level,
}

-- The noise leaves room below the baseline for a touch to be seen.
abbrev pub Quiet : Calibration → Type 0
Quiet c = detection_drop c.untouched_value c.noise_span < c.untouched_value

-- The touch is clear of the noise, and the threshold lies in its range.
abbrev pub Clear : Calibration → Type 0
Clear c =
    (c.touched_value < c.untouched_value)
    × (minimum_signal c.untouched_value c.noise_span ≤ c.untouched_value - c.touched_value)
    × (1 ≤ c.threshold_percent)
    × (c.threshold_percent ≤ 40)

-- The level that the finger has to reach for the measurement of the touch.
abbrev pub touch_level : Calibration → ℕ
touch_level c = c.untouched_value - detection_drop c.untouched_value c.noise_span

-- The baseline is the mean of 32 readings from the number `i` on, the noise their span.
abbrev pub Baseline : Driver → ℕ → Calibration → Type 0
Baseline d i c =
    (xs : List ℕ) × (length xs ≡ 32)
    × ReadFrom d i xs
    × (c.untouched_value ≡ (trimmed_mean xs).mean)
    × (c.noise_span ≡ (trimmed_mean xs).maximum - (trimmed_mean xs).minimum)

-- The touched value is the mean of 16 readings from the number `i` on.
abbrev pub Touched : Driver → ℕ → Calibration → Type 0
Touched d i c =
    (xs : List ℕ) × (length xs ≡ 16) × ReadFrom d i xs × (c.touched_value ≡ (trimmed_mean xs).mean)

-- A touch at the threshold that the calibration found, and a release.
abbrev pub Verified : Driver → Calibration → ℕ → ℕ → Type 0
Verified d c from to =
    Tap d (wake_threshold c.untouched_value c.threshold_percent) (release_level c) from to

-- What the caller may rely on, with the number of readings before the calibration and after it.
pub record Calibrated (d : Driver) (from : ℕ) (c : Calibration) (to : ℕ) : Type 0 where
  pub quiet : Quiet c
  pub clear : Clear c
  pub baseline : Baseline d (from + 32) c
  pub held_at : ℕ
  pub held : Saw d (touch_level c) true (from + 64) held_at
  pub touched : Touched d held_at c
  pub released_at : ℕ
  pub released : Saw d (release_level c) false (held_at + 16) released_at
  pub first : ℕ
  pub second : ℕ
  pub tap_1 : Verified d c released_at first
  pub tap_2 : Verified d c first second
  pub tap_3 : Verified d c second to
  pub counted_taps : c.verified_touches ≡ 3
