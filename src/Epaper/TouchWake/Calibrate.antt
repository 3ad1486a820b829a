-- ===== src/Epaper/TouchWake/Calibrate.antt =====
-- touch_wake.c, `touch_wake_calibrate`: the stages of the calibration. Each stage that fails sets
-- the result's failure; the function destroys the context on every path that has created it.
use keg_scale_espdisplay.Prelude.{
  ℕ, ◌+◌, ◌-◌, ◌*◌, ◌/◌, ◌%◌, ◌^◌, max, Bool, true, false, Option, none, some, List, [], ltb, leb,
  if◌then◌else◌,
}
use keg_scale_espdisplay.Esp.{
  Err, fail, no_mem, invalid_arg, invalid_state, invalid_size, not_found, timeout, invalid_response,
  invalid_crc, not_supported, nvs_not_found, invalid_version, other, ◌and_then◌,
}
use keg_scale_espdisplay.Epaper.TouchWake.{
  threshold_min_percent, threshold_max_percent, Driver, World, no_context, Touch,
  touch_context_create, touch_context_destroy, touch_context_enable, wake_threshold,
}
use keg_scale_espdisplay.Epaper.TouchWake.Sampling.{
  read_samples, trimmed_mean, report_progress, wait_for_state,
}

abbrev pub settle_samples : ℕ
settle_samples = 32

abbrev pub baseline_samples : ℕ
baseline_samples = 32

abbrev pub touched_samples : ℕ
touched_samples = 16

abbrev pub action_timeout_ms : ℕ
action_timeout_ms = 60000

pub data Failure : Type 0 where
  none_failed timed_out noisy weak_signal hardware : Failure

pub record Calibration : Type 0 where
  pub untouched_value : ℕ
  pub touched_value : ℕ
  pub noise_span : ℕ
  pub threshold_percent : ℕ
  pub verified_touches : ℕ
  pub failure : Failure

abbrev pub no_calibration : Calibration
no_calibration = record {
  untouched_value = 0;
  touched_value = 0;
  noise_span = 0;
  threshold_percent = 0;
  verified_touches = 0;
  failure = hardware;
}

pub record Run : Type 0 where
  pub touch : Touch
  pub result : Calibration

-- The run with the new world.
abbrev pub in_world : Run → World → Run
in_world r w = let t = r.touch in record r { touch = record t { world = w } }

abbrev pub failed_as : Failure → Run → Run
failed_as f r = let c = r.result in record r { result = record c { failure = f } }

abbrev pub failure_of : Err → Failure
failure_of timeout = timed_out
failure_of fail = hardware
failure_of no_mem = hardware
failure_of invalid_arg = hardware
failure_of invalid_state = hardware
failure_of invalid_size = hardware
failure_of not_found = hardware
failure_of invalid_response = hardware
failure_of invalid_crc = hardware
failure_of not_supported = hardware
failure_of nvs_not_found = hardware
failure_of invalid_version = hardware
failure_of (other n) = hardware

-- The end of a stage that waits: an error is a timeout or the hardware's.
abbrev pub waited : Run → World × Option Err → Run × Option Err
waited r (w, none) = (in_world r w, none)
waited r (w, some e) = (failed_as (failure_of e) (in_world r w), some e)

unfoldable pub noise_guard : ℕ → ℕ
noise_guard noise_span = noise_span * 5 % 2 ^ 32

unfoldable pub detection_drop : ℕ → ℕ → ℕ
unfolding noise_guard
detection_drop untouched noise_span = max (max (untouched / 200) (noise_guard noise_span)) 20

abbrev pub with_baseline : Run → (World × List ℕ) × Option Err → Run × Option Err
with_baseline r ((w, samples), some e) = (in_world r w, some e)
with_baseline r ((w, samples), none) =
    let m = trimmed_mean samples in
    let c = r.result in
    let noise_span = m.maximum - m.minimum in
    let measured : Run = record r {
      touch = (in_world r w).touch;
      result = record c { untouched_value = m.mean; noise_span = noise_span };
    } in
    if leb m.mean (detection_drop m.mean noise_span)
    then (failed_as noisy measured, some invalid_state)
    else (measured, none)

abbrev pub after_settling : Driver → Run → (World × List ℕ) × Option Err → Run × Option Err
after_settling d r ((w, samples), some e) = (in_world r w, some e)
after_settling d r ((w, samples), none) = with_baseline r (read_samples d baseline_samples [] w)

-- The readings that settle the filter, those of the baseline, and the test of the noise.
unfoldable pub measure_baseline : Driver → Run → Run × Option Err
unfolding read_samples trimmed_mean detection_drop
measure_baseline d r = after_settling d r (read_samples d settle_samples [] r.touch.world)

abbrev pub wait_if_reported : Driver → ℕ → Bool → World × Option Err → World × Option Err
wait_if_reported d threshold touched reported =
    reported and_then (λ w. wait_for_state d threshold touched action_timeout_ms w)

unfoldable pub touch_and_hold : Driver → Run → Run × Option Err
unfolding report_progress wait_for_state detection_drop
touch_and_hold d r =
    let c = r.result in
    waited r (
      wait_if_reported d (c.untouched_value - detection_drop c.untouched_value c.noise_span) true
        (report_progress d r.touch.world))

unfoldable pub minimum_signal : ℕ → ℕ → ℕ
unfolding noise_guard
minimum_signal untouched noise_span = max (untouched / 100) (noise_guard noise_span)

unfoldable pub threshold_of : ℕ → ℕ → ℕ
threshold_of untouched signal_drop =
    let target_drop = signal_drop * 2 % 2 ^ 32 / 5 in
    let percent = (target_drop * 100 + untouched - 1) / untouched % 2 ^ 32 in
    if ltb percent threshold_min_percent
    then threshold_min_percent
    else if ltb threshold_max_percent percent
    then threshold_max_percent
    else percent

abbrev pub with_touched : Run → (World × List ℕ) × Option Err → Run × Option Err
with_touched r ((w, samples), some e) = (failed_as hardware (in_world r w), some e)
with_touched r ((w, samples), none) =
    let touched = (trimmed_mean samples).mean in
    let c = r.result in
    let signal_drop = c.untouched_value - touched in
    let measured : Run = record r {
      touch = (in_world r w).touch;
      result = record c { touched_value = touched };
    } in
    let accepted : Run = record r {
      touch = (in_world r w).touch;
      result = record c {
        touched_value = touched;
        threshold_percent = threshold_of c.untouched_value signal_drop % 256;
      };
    } in
    if leb c.untouched_value touched
    then (failed_as weak_signal measured, some invalid_response)
    else if ltb signal_drop (minimum_signal c.untouched_value c.noise_span)
    then (failed_as weak_signal measured, some invalid_response)
    else (accepted, none)

-- The readings of the touch, the test of the signal, and the threshold.
unfoldable pub measure_touch : Driver → Run → Run × Option Err
unfolding read_samples trimmed_mean minimum_signal threshold_of
measure_touch d r = with_touched r (read_samples d touched_samples [] r.touch.world)

-- The level above which the finger counts as removed.
unfoldable pub release_level : Calibration → ℕ
unfolding detection_drop
release_level c = c.untouched_value - detection_drop c.untouched_value c.noise_span / 2

unfoldable pub release : Driver → Run → Run × Option Err
unfolding report_progress wait_for_state release_level
release d r =
    waited r (wait_if_reported d (release_level r.result) false (report_progress d r.touch.world))

abbrev pub counted : ℕ → Run × Option Err → Run × Option Err
counted tap (r, some e) = (r, some e)
counted tap (r, none) =
    let c = r.result in (record r { result = record c { verified_touches = tap + 1 } }, none)

-- The waits for a touch and for its release, each reported before.
unfoldable pub wait_for_tap : Driver → Calibration → World → World × Option Err
unfolding report_progress wait_for_state release_level wake_threshold
wait_for_tap d c w =
    wait_if_reported d (wake_threshold c.untouched_value c.threshold_percent) true
      (report_progress d w)
    and_then (λ w. wait_if_reported d (release_level c) false (report_progress d w))

-- A touch and a release, counted where both come.
unfoldable pub verify_tap : Driver → ℕ → Run → Run × Option Err
unfolding wait_for_tap
verify_tap d tap r = counted tap (waited r (wait_for_tap d r.result r.touch.world))

-- The end of the function from the first reading on.
abbrev pub conclude : Driver → Run × Option Err → Run × Option Err
conclude d (r, some e) = (record r { touch = touch_context_destroy d r.touch }, some e)
conclude d (r, none) =
    (record (failed_as none_failed r) { touch = touch_context_destroy d r.touch }, none)

unfoldable pub stages : Driver → Run → Run × Option Err
unfolding measure_baseline touch_and_hold measure_touch release verify_tap
stages d r =
    measure_baseline d r
    and_then (λ r. touch_and_hold d r)
    and_then (λ r. measure_touch d r)
    and_then (λ r. release d r)
    and_then (λ r. verify_tap d 0 r)
    and_then (λ r. verify_tap d 1 r)
    and_then (λ r. verify_tap d 2 r)

abbrev pub with_enabled : Driver → Touch × Option Err → Run × Option Err
with_enabled d (t, some e) =
    (record { touch = touch_context_destroy d t; result = no_calibration }, some e)
with_enabled d (t, none) = conclude d (stages d (record { touch = t; result = no_calibration }))

abbrev pub with_context : Driver → Touch × Option Err → Run × Option Err
with_context d (t, some e) = (record { touch = t; result = no_calibration }, some e)
with_context d (t, none) = with_enabled d (touch_context_enable d false t)

abbrev pub when_reported : Driver → World × Option Err → Run × Option Err
when_reported d (w, some e) =
    (record { touch = record { context = no_context; world = w }; result = no_calibration }, some e)
when_reported d (w, none) = with_context d (touch_context_create d w)

unfoldable pub touch_wake_calibrate : Driver → World → Run × Option Err
unfolding report_progress touch_context_create touch_context_enable touch_context_destroy stages
touch_wake_calibrate d w = when_reported d (report_progress d w)
