-- ===== src/Tap/Settings.antt =====
-- touchpour/components/tap_control/control.h, `Settings`, `valid_settings` and `Sample`.
use keg_scale_espdisplay.Prelude.{
  ℕ, ◌+◌, ◌/◌, ◌^◌, Bool, false, not, ◌&&◌, ◌||◌, ltb, leb, ◌==◌, if◌then◌else◌,
}

-- The `int` fields are natural numbers: `valid_settings` gives each one a positive lower bound,
-- and no other settings are ever stored.
pub record Settings : Type 0 where
  pub version : ℕ
  pub closed_us : ℕ
  pub open_us : ℕ
  pub stop_mm : ℕ
  pub min_mm : ℕ
  pub max_mm : ℕ
  pub tray_mm : ℕ
  pub stable_mm : ℕ
  pub jump_mm : ℕ
  pub stale_ms : ℕ
  pub max_pour_ms : ℕ
  pub servo_calibrated : Bool
  pub distance_calibrated : Bool

abbrev pub default_settings : Settings
default_settings = record {
  version = 1;
  closed_us = 1500;
  open_us = 1600;
  stop_mm = 80;
  min_mm = 100;
  max_mm = 450;
  tray_mm = 600;
  stable_mm = 15;
  jump_mm = 80;
  stale_ms = 350;
  max_pour_ms = 30000;
  servo_calibrated = false;
  distance_calibrated = false;
}

-- `max_mm < tray_mm - 20` is a comparison of signed numbers, so 20 moves to the left.
unfoldable pub valid_settings : Settings → Bool
valid_settings c =
    c.version == 1
    && leb 500 c.closed_us
    && leb c.closed_us 2500
    && leb 500 c.open_us
    && leb c.open_us 2500
    && (not c.servo_calibrated || not (c.closed_us == c.open_us))
    && leb 20 c.stop_mm
    && ltb c.stop_mm c.min_mm
    && ltb c.min_mm c.max_mm
    && leb 50 c.tray_mm
    && leb c.tray_mm 2000
    && ltb (c.max_mm + 20) c.tray_mm
    && leb 1 c.stable_mm
    && leb c.stable_mm 100
    && leb 10 c.jump_mm
    && leb c.jump_mm 500
    && leb 150 c.stale_ms
    && leb c.stale_ms 500
    && leb 1000 c.max_pour_ms
    && leb c.max_pour_ms 120000

-- `filtered_mm` is a float in [20, 2000], or 0: a whole number of units of 2^-19 mm.
pub record Sample : Type 0 where
  pub mm : ℕ
  pub status : ℕ
  pub valid : Bool
  pub at : ℕ
  pub sequence : ℕ
  pub filtered_mm : ℕ
  pub filtered_valid : Bool

abbrev pub no_sample : Sample
no_sample = record {
  mm = 0;
  status = 0;
  valid = false;
  at = 0;
  sequence = 0;
  filtered_mm = 0;
  filtered_valid = false;
}

-- `lround` of a number of units, halves up.
unfoldable pub lround : ℕ → ℕ
lround x = (x + 2 ^ 18) / 2 ^ 19

unfoldable pub stable_distance : Sample → ℕ
unfolding lround
stable_distance s = if s.filtered_valid then lround s.filtered_mm else s.mm
