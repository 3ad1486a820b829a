-- ===== src/Tap/Filter/Examples.antt =====
-- A steady cup at 300 mm and a spike of 1900 mm.
use keg_scale_espdisplay.Prelude.{ℕ, ◌+◌, ◌-◌, ◌*◌, ◌/◌, ◌≡◌, refl, true, arith, ltb, if◌then◌else◌}
use keg_scale_espdisplay.Tap.Filter.{DistanceFilter, new_filter, unit_mm, update}
use keg_scale_espdisplay.Tap.Filter.Laws.{IsBetween}

-- Two fifths of the way to the median, the step rounded down.
abbrev exact_step : ℕ → ℕ → ℕ
exact_step v m = if ltb v m then v + 2 * (m - v) / 5 else v - 2 * (v - m) / 5

exact_step-IsBetween : IsBetween exact_step
exact_step-IsBetween v m = ground arith

abbrev steady : DistanceFilter
steady = record {
  window_0 = 300;
  window_1 = 300;
  window_2 = 300;
  count = 3;
  next = 0;
  value = 300 * unit_mm;
  last_at = 300;
}

steady_of_three :
    (update exact_step 300 true 300 350
      (update exact_step 300 true 200 350 (update exact_step 300 true 100 350 new_filter).0).0).0
    ≡ steady
unfolding update
steady_of_three = refl
