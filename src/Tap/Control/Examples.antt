-- ===== src/Tap/Control/Examples.antt =====
-- Concrete runs of `Control`.
use keg_scale_espdisplay.Prelude.{
  ℕ, ◌+◌, ◌*◌, ◌^◌, ◌≤◌, ◌<◌, ◌≡◌, refl, ◌↔◌, true, false, List, [], ◌∷◌, arith, sub32,
}
use keg_scale_espdisplay.Tap.Settings.{Settings, default_settings, Sample, stable_distance}
use keg_scale_espdisplay.Tap.Control.{
  pouring_reason, Control, new_control, on_invalid, on_pouring, on_idle, on_sample, update, start,
  run,
}
use keg_scale_espdisplay.Tap.Control.Safety.{
  InTime, GoesOn, update_pouring_iff, Clocks, run-pouring,
}
use keg_scale_espdisplay.Tap.Control.Ready.{
  in_fill_range, good_readings, start-good_readings, start_of_Repeats,
}

abbrev pub calibrated : Settings
calibrated = record default_settings { servo_calibrated = true; distance_calibrated = true }

-- A reading of `mm` with sequence number `n`, taken at `100 * n` and seen 10 ms later.
abbrev pub reading : ℕ → ℕ → Sample
reading n mm = record {
  mm = mm;
  status = 11;
  valid = true;
  at = 100 * n;
  sequence = n;
  filtered_mm = mm * 2 ^ 19;
  filtered_valid = true;
}

abbrev pub round_of : ℕ → ℕ → Sample × ℕ
round_of n mm = (reading n mm, 100 * n + 10)

abbrev pub no_return : ℕ → Sample × ℕ
no_return n = (
  record (reading n 65535) { valid = false; filtered_mm = 0; filtered_valid = false },
  100 * n + 10,
)

abbrev five_steady : List (Sample × ℕ)
five_steady =
    round_of 1 300 ∷ round_of 2 300 ∷ round_of 3 300 ∷ round_of 4 300 ∷ round_of 5 300 ∷ []

abbrev pub open_tap : Control
open_tap = record new_control {
  pouring = true;
  reason = pouring_reason;
  seen = 5;
  last_valid = 500;
  started = 520;
  previous = 300;
  count = 5;
  low = 300;
  high = 300;
}

opens_after_five : (start calibrated 520 (run calibrated five_steady new_control)).0 ≡ open_tap
unfolding start run update on_sample on_idle stable_distance
opens_after_five = refl

-- One no-return reading, a good one, and then the fill level.
abbrev pour : List (Sample × ℕ)
pour = no_return 6 ∷ round_of 7 290 ∷ round_of 8 230 ∷ []

pour_goes_on : (run calibrated pour open_tap).pouring ≡ true
unfolding run update on_sample on_invalid on_pouring
pour_goes_on = refl

update_pouring_iff_example : ((update calibrated (reading 6 290) 610 open_tap).pouring ≡ true) ↔ (
    (open_tap.pouring ≡ true)
    × InTime calibrated 610 open_tap
    × GoesOn calibrated (reading 6 290) 610 open_tap)
update_pouring_iff_example = update_pouring_iff calibrated (reading 6 290) 610 open_tap

run-pouring_example :
    (open_tap.pouring ≡ true)
    × Clocks (λ now. sub32 now open_tap.started < calibrated.max_pour_ms) pour
run-pouring_example = run-pouring calibrated pour open_tap pour_goes_on

start-good_readings_example :
    (calibrated.servo_calibrated ≡ true)
    × (calibrated.distance_calibrated ≡ true)
    × (5 ≤ good_readings calibrated five_steady)
unfolding start run update on_sample on_idle stable_distance
start-good_readings_example = start-good_readings calibrated five_steady 520 new_control refl refl

start_of_Repeats_example :
    ((start calibrated 520 (run calibrated five_steady new_control)).1 ≡ true)
    × ((start calibrated 520 (run calibrated five_steady new_control)).0.pouring ≡ true)
unfolding start run update on_sample on_idle stable_distance in_fill_range
start_of_Repeats_example =
    start_of_Repeats calibrated 300 five_steady 520 new_control refl refl refl refl (ground arith)
      (omega arith) (omega arith)
