-- ===== src/Tap/Device.antt =====
-- touchpour/components/tap_control/tap_app.h and app.cpp: the state that the tasks share, and the
-- servo.
use keg_scale_espdisplay.Prelude.{
  ℕ, Bool, not, ◌&&◌, ◌||◌, Option, none, some, List, ◌==◌, if◌then◌else◌,
}
use keg_scale_espdisplay.Tap.Settings.{Settings, default_settings, valid_settings, Sample}
use keg_scale_espdisplay.Tap.Control.{Reason, pwm_failure, Control, stop}
use keg_scale_espdisplay.Tap.Target.{valid_half_target}
use keg_scale_espdisplay.Tap.Button.{ButtonGesture}
use keg_scale_espdisplay.Tap.Sounds.{SoundEvents}

pub data Kind : Type 0 where
  begin_pour test_servo close_tap begin_half : Kind

pub record Action : Type 0 where
  pub kind : Kind
  pub pulse : ℕ
  pub from_web : Bool

-- The globals of app.cpp, and the variables that `controller_task` keeps from round to round.
pub record Device : Type 0 where
  pub settings : Settings
  pub sample : Sample
  pub control : Control
  pub manual_hold : Control
  pub actions : List Action
  pub stop_requested : Bool
  pub manual_test_active : Bool
  pub firmware_updating : Bool
  pub update_closed : Bool
  pub touch_stop_armed : Bool
  pub servo_us : ℕ
  pub half_stop_mm : ℕ
  pub active_stop_mm : ℕ
  pub button : ButtonGesture
  pub sounds : SoundEvents
  pub manual_deadline : ℕ
  pub web_operation : Bool
  pub selected_settings : Settings

unfoldable pub pouring_active : Device → Bool
pouring_active d = d.control.pouring || d.manual_hold.pouring

-- The places of a round that move the servo; each is reached at most once in a round.
pub data Site : Type 0 where
  at_update at_stop at_end at_deadline at_close at_test at_start at_hold at_idle : Site

-- What a round of the task reads: the pin, the clock, the flags of other tasks, and whether the PWM
-- driver accepts the pulse at each place.
pub record Input : Type 0 where
  pub raw_high : Bool
  pub now : ℕ
  pub locked : Bool
  pub setup_mode : Bool
  pub history_saving : Bool
  pub pwm_ok : Site → Bool

unfoldable pub stop_both : Reason → Device → Device
unfolding stop
stop_both why d = record d { control = stop why d.control; manual_hold = stop why d.manual_hold }

-- `set_servo(us)` with the outcome of the driver.
unfoldable pub set_servo : ℕ → Bool → Device → Device
unfolding stop_both
set_servo us accepted d =
    if us == d.servo_us
    then d
    else if not accepted
    then stop_both pwm_failure d
    else record d { servo_us = us }

-- `save_settings`: whether the settings are written; `stored` is the outcome of the flash store,
-- and no half target stands for the source's -1.
unfoldable pub save_settings : Settings → Option ℕ → Bool → Device → Bool
unfolding valid_settings valid_half_target
save_settings c none stored d = valid_settings c && valid_half_target c d.half_stop_mm && stored
save_settings c (some target) stored d = valid_settings c && valid_half_target c target && stored

-- `busy`, once the mutex exists.
unfoldable pub busy : Bool → Device → Bool
unfolding pouring_active
busy history_saving d =
    pouring_active d || d.manual_test_active || d.firmware_updating || history_saving

-- The part of `start` that loads the stored settings and the half target (`none`: not readable, or
-- of another size).
unfoldable pub load_settings : Option Settings → Settings
load_settings none = default_settings
load_settings (some c) = if valid_settings c then c else default_settings

unfoldable pub load_half : Settings → Option ℕ → ℕ
load_half c none = 0
load_half c (some target) = if valid_half_target c target then target else 0
