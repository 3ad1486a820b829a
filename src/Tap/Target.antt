-- ===== src/Tap/Target.antt =====
-- touchpour/components/tap_control/pour_target.h and idle_status.h.
use keg_scale_espdisplay.Prelude.{
  ℕ, ◌+◌, Bool, true, false, not, ◌&&◌, ◌||◌, ltb, leb, ◌==◌, if◌then◌else◌,
}
use keg_scale_espdisplay.Tap.Settings.{Settings, Sample, stable_distance}
use keg_scale_espdisplay.Tap.Control.{Reason, pwm_failure, Control, ready, is_fresh}
pub mod Laws
pub mod Examples

unfoldable pub valid_half_target : Settings → ℕ → Bool
valid_half_target c target = target == 0 || (ltb c.stop_mm target && ltb target c.max_mm)

unfoldable pub target_ready : Settings → Control → Sample → ℕ → ℕ → Bool
unfolding is_fresh
target_ready c k s now target =
    leb c.stop_mm target
    && ltb target c.max_mm
    && ready c now k
    && is_fresh c s now
    && ltb target s.mm
    && ltb target (stable_distance s)

unfoldable pub half_ready : Settings → Control → Sample → ℕ → ℕ → Bool
unfolding valid_half_target target_ready
half_ready c k s now target =
    not (target == 0) && valid_half_target c target && target_ready c k s now target

unfoldable pub for_target : Settings → ℕ → Settings
for_target c target = record c { stop_mm = target }

-- The texts of `idle_status`.
pub data IdleStatus : Type 0 where
  servo_failure calibrate_servo calibrate_fill_level reading_unavailable : IdleStatus
  no_cup at_fill_level cup_ready hold_steady : IdleStatus

abbrev pub is_pwm_failure : Reason → Bool
is_pwm_failure pwm_failure = true
is_pwm_failure _ = false

unfoldable pub idle_status : Settings → Sample → ℕ → Bool → Reason → IdleStatus
unfolding is_fresh
idle_status c s now is_ready why =
    if is_pwm_failure why
    then servo_failure
    else if not c.servo_calibrated
    then calibrate_servo
    else if not c.distance_calibrated
    then calibrate_fill_level
    else if not (is_fresh c s now)
    then reading_unavailable
    else if leb c.tray_mm (s.mm + 20) || ltb c.max_mm (stable_distance s)
    then no_cup
    else if leb s.mm c.stop_mm || leb (stable_distance s) c.stop_mm
    then at_fill_level
    else if is_ready
    then cup_ready
    else hold_steady
