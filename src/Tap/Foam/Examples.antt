-- ===== src/Tap/Foam/Examples.antt =====
-- One recording: a start, two readings with a mark between them, and a stop.
use keg_scale_espdisplay.Prelude.{
  ℕ, ◌+◌, ◌*◌, ◌≡◌, refl, true, false, List, [], ◌∷◌, arith, ℤ, pos, negsuc,
}
use keg_scale_espdisplay.Tap.Control.{pouring_reason}
use keg_scale_espdisplay.Tap.Control.Examples.{calibrated, reading}
use keg_scale_espdisplay.Tap.Foam.{FoamRow, new_capture, Observation, foam_status}
use keg_scale_espdisplay.Tap.Foam.Laws.{
  WellFormed, Call, starts, stops, marks, observes, run_calls, run_calls-WellFormed,
}

abbrev seen_at : ℕ → ℕ → Observation
seen_at n mm = record {
  s = reading n mm;
  c = calibrated;
  now = 100 * n + 10;
  servo = 1600;
  pouring = true;
  is_ready = false;
  test = false;
  button = false;
  stable = 5;
  reason = pouring_reason;
  manual_hold = true;
}

abbrev one_recording : List Call
one_recording =
    starts 90 ∷ observes (seen_at 1 300) ∷ marks 1 ∷ observes (seen_at 2 280) ∷ stops 250 ∷ []

abbrev summary : List FoamRow → List (ℕ × ℕ × ℤ × ℕ × ℕ)
summary [] = []
summary (r ∷ rs) = (r.elapsed_ms, r.interval_ms, r.delta_mm, r.flags, r.markers) ∷ summary rs

one_recording-rows :
    summary (run_calls one_recording new_capture).rows
    ≡ (10, 0, pos 0, 69, 0) ∷ (110, 100, negsuc 19, 71, 1) ∷ []
unfolding keg_scale_espdisplay.Tap.Foam.stop keg_scale_espdisplay.Tap.Foam.foam_observe
    keg_scale_espdisplay.Tap.Foam.mark keg_scale_espdisplay.Tap.Foam.start
one_recording-rows = refl

one_recording-foam_status :
    foam_status 900 (run_calls one_recording new_capture)
    ≡ record { active = false; count = 2; elapsed_ms = 160 }
unfolding foam_status keg_scale_espdisplay.Tap.Foam.stop keg_scale_espdisplay.Tap.Foam.foam_observe
    keg_scale_espdisplay.Tap.Foam.mark keg_scale_espdisplay.Tap.Foam.start
one_recording-foam_status = refl

new_capture-WellFormed : WellFormed new_capture
new_capture-WellFormed = record {
  fits = omega arith;
  room = λ h. omega arith;
  chained = tt;
  recalls = (refl, refl);
}

run_calls-WellFormed_example : WellFormed (run_calls one_recording new_capture)
run_calls-WellFormed_example = run_calls-WellFormed one_recording new_capture new_capture-WellFormed
