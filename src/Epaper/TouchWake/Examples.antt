-- ===== src/Epaper/TouchWake/Examples.antt =====
-- Calibrations and an arming with a driver whose readings follow the instructions.
use keg_scale_espdisplay.Prelude.{
  ℕ, suc, ◌+◌, ◌-◌, ◌*◌, ◌/◌, ◌%◌, ◌^◌, ◌≤◌, ◌≡◌, refl, true, none, some, [], ◌∷◌, arith, ltb, ◌==◌,
  if◌then◌else◌, All, add32,
}
use keg_scale_espdisplay.Esp.{invalid_state, timeout}
use keg_scale_espdisplay.Epaper.TouchWake.{Reading, value, Driver, World, touch_wake_prepare}
use keg_scale_espdisplay.Epaper.TouchWake.Sampling.{
  trimmed_mean, look, wait_from, ms_to_ticks, wait_for_state,
}
use keg_scale_espdisplay.Epaper.TouchWake.Calibrate.{none_failed, timed_out, touch_wake_calibrate}
use keg_scale_espdisplay.Epaper.TouchWake.Mean.{trimmed_mean-Between}
use keg_scale_espdisplay.Epaper.TouchWake.Waiting.{Advances, wait_for_state-ends}
use keg_scale_espdisplay.Epaper.TouchWake.Keeping.{handles}
use keg_scale_espdisplay.Epaper.TouchWake.Handles.{
  AllClosedBy, IsCleared, touch_wake_calibrate-handles,
}
use keg_scale_espdisplay.Epaper.TouchWake.Contract.{Calibrated}
use keg_scale_espdisplay.Epaper.TouchWake.Success.{touch_wake_calibrate-Calibrated}

abbrev resting : World
resting = record {
  read = 0;
  looked = 0;
  reported = 0;
  controllers = 0;
  channels = 0;
  enables = 0;
  scannings = 0;
}

-- 1000 untouched and 800 touched.
abbrev guided : ℕ → Reading
guided n =
    if ltb n 64
    then value 1000
    else if ltb n 83
    then value 800
    else if (n - 83) / 3 % 2 == 0
    then value 1000
    else value 800

abbrev good_driver : Driver
good_driver = record {
  new_controller = none;
  new_channel = none;
  channel_info = none;
  gpio = 12;
  filter = none;
  enable = none;
  scans = λ n. none;
  start = none;
  disable = none;
  benchmark = value 1000;
  reconfig = none;
  sleep_config = none;
  enable_again = none;
  readings = guided;
  ticks = λ i. i * 5 % 2 ^ 32;
  hz = 100;
  progress = λ n. none;
  stop = none;
  disable_at_end = none;
  del_channel = none;
  del_controller = none;
}

touch_wake_calibrate-guided :
    let (r, e) = touch_wake_calibrate good_driver resting in
    (e ≡ none)
    × (r.result ≡ record {
      untouched_value = 1000;
      touched_value = 800;
      noise_span = 0;
      threshold_percent = 8;
      verified_touches = 3;
      failure = none_failed;
    })
unfolding touch_wake_calibrate add32
touch_wake_calibrate-guided = (refl, refl)

-- Nobody touches the sensor.
touch_wake_calibrate-untouched :
    let (r, e) =
      touch_wake_calibrate (record good_driver { readings = λ n. value 1000; hz = 1 }) resting in
    (e ≡ some timeout) × (r.result.failure ≡ timed_out)
unfolding touch_wake_calibrate add32
touch_wake_calibrate-untouched = (refl, refl)

touch_wake_prepare-threshold :
    let (t, e) = touch_wake_prepare good_driver 10 0 resting in
    (e ≡ none) × (t.context.threshold ≡ 900) × (t.context.scanning ≡ true)
unfolding touch_wake_prepare
touch_wake_prepare-threshold = (refl, refl, refl)

trimmed_mean-sorts :
    trimmed_mean (5 ∷ 900 ∷ 7 ∷ 6 ∷ 5 ∷ 8 ∷ 1 ∷ 7 ∷ [])
    ≡ record { minimum = 1; maximum = 900; mean = 6 }
unfolding trimmed_mean
trimmed_mean-sorts = refl

good_clock : Advances good_driver (λ i. i * 5) 0
good_clock = record {
  ticks = λ i. refl;
  begins = omega arith;
  later = λ i l. omega arith;
  near = λ i. omega arith;
}

wait_for_state-ends_example :
    wait_from good_driver 980 true
      (add32 (good_driver.ticks 0) (ms_to_ticks good_driver 1000))
      (suc (ms_to_ticks good_driver 1000 + 7))
      0
      (look good_driver resting).0
    ≡ wait_for_state good_driver 980 true 1000 resting
wait_for_state-ends_example =
    wait_for_state-ends good_driver (λ i. i * 5) 980 true 1000 7 resting good_clock

trimmed_mean-Between_example :
    let m = trimmed_mean (9 ∷ 3 ∷ 5 ∷ []) in
    All (λ v. (m.minimum ≤ v) × (v ≤ m.maximum)) (9 ∷ 3 ∷ 5 ∷ [])
    × ((m.minimum ≤ m.mean) × (m.mean ≤ m.maximum))
trimmed_mean-Between_example =
    trimmed_mean-Between (9 ∷ 3 ∷ 5 ∷ []) (omega arith)
      (omega arith, (omega arith, (omega arith, tt)))

-- The channel cannot be deleted.
abbrev stuck_driver : Driver
stuck_driver = record good_driver { del_channel = some invalid_state }

touch_wake_calibrate-handles_example :
    let t = (touch_wake_calibrate stuck_driver resting).0.touch in
    AllClosedBy stuck_driver resting t.world × IsCleared t.context
touch_wake_calibrate-handles_example = touch_wake_calibrate-handles stuck_driver resting

stuck_driver-channels :
    handles (touch_wake_calibrate stuck_driver resting).0.touch.world ≡ (0, 1, 0, 0)
unfolding touch_wake_calibrate add32
stuck_driver-channels = refl

touch_wake_calibrate-Calibrated_example :
    let r = (touch_wake_calibrate good_driver resting).0 in
    Calibrated good_driver 0 r.result r.touch.world.read
touch_wake_calibrate-Calibrated_example =
    touch_wake_calibrate-Calibrated good_driver resting touch_wake_calibrate-guided.0
