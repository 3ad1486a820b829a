-- ===== src/Tap/Control.antt =====
-- touchpour/components/tap_control/control.h, `Control`: the decision to open and close the tap.
use keg_scale_espdisplay.Prelude.{
  ℕ, ◌+◌, ◌-◌, min, max, Bool, true, false, not, ◌&&◌, ◌||◌, List, [], ◌∷◌, ltb, leb, ◌==◌,
  if◌then◌else◌, sub32, abs_diff,
}
use keg_scale_espdisplay.Tap.Settings.{Settings, Sample, stable_distance}
pub mod Safety
pub mod Ready
pub mod Dropout
pub mod Examples

-- The texts that `reason` points to, in `Control` and in the controller task.
pub data Reason : Type 0 where
  boot maximum_pour_time lidar_stale recovery_timeout lidar_invalid fill_target cup_removed : Reason
  erratic start_rejected pouring_reason pwm_failure fill_released firmware_update : Reason
  tap_locked emergency_stop tap_closed test_completed manual_close servo_test half_pour : Reason
  half_unavailable manual_fill manual_rejected : Reason

pub Reason-discrete : Discrete Reason
Reason-discrete = hlevel

pub record Control : Type 0 where
  pub pouring : Bool
  pub startup_dropout_used : Bool
  pub startup_dropout_pending : Bool
  pub reason : Reason
  pub seen : ℕ
  pub last_valid : ℕ
  pub started : ℕ
  pub previous : ℕ
  pub count : ℕ
  pub low : ℕ
  pub high : ℕ

abbrev pub new_control : Control
new_control = record {
  pouring = false;
  startup_dropout_used = false;
  startup_dropout_pending = false;
  reason = boot;
  seen = 0;
  last_valid = 0;
  started = 0;
  previous = 0;
  count = 0;
  low = 0;
  high = 0;
}

abbrev pub startup_dropout_window_ms : ℕ
startup_dropout_window_ms = 250

abbrev pub startup_recovery_ms : ℕ
startup_recovery_ms = 350

unfoldable pub reset_ready : Control → Control
reset_ready k = record k {
  startup_dropout_used = false;
  startup_dropout_pending = false;
  count = 0;
  previous = 0;
  last_valid = 0;
}

unfoldable pub stop : Reason → Control → Control
unfolding reset_ready
stop why k = reset_ready (record k { pouring = false; reason = why })

unfoldable pub ready : Settings → ℕ → Control → Bool
unfolding sub32
ready c now k =
    c.servo_calibrated
    && c.distance_calibrated
    && leb 5 k.count
    && leb (sub32 now k.last_valid) c.stale_ms

-- The branch `!s.valid || now - s.at > stale_ms` of `update`.
unfoldable pub on_invalid : Settings → Sample → ℕ → Control → Control
unfolding stop reset_ready sub32
on_invalid c s now k =
    if k.pouring
    then (if not k.startup_dropout_used
          && not s.valid
          && s.mm == 65535
          && ltb (sub32 now k.started) startup_dropout_window_ms
          && leb (sub32 now s.at) c.stale_ms
        then record k { startup_dropout_used = true; startup_dropout_pending = true }
        else stop lidar_invalid k)
    else reset_ready k

-- The branch `pouring` of `update`, at a new and fresh sample.
unfoldable pub on_pouring : Settings → Sample → Control → Control
unfolding stop abs_diff
on_pouring c s k =
    let k' = record k { startup_dropout_pending = false } in
    if leb s.mm c.stop_mm
    then stop fill_target k'
    else if ltb c.max_mm s.mm || leb c.tray_mm (s.mm + 20)
    then stop cup_removed k'
    else if not (k.previous == 0) && ltb c.jump_mm (abs_diff s.mm k.previous)
    then stop erratic k'
    else record k' { previous = s.mm; last_valid = s.at }

-- The part of `update` that counts steady samples.
unfoldable pub collect : Settings → ℕ → Control → Control
collect c d k =
    if k.count == 0
    then record k { low = d; high = d; count = 1 }
    else if ltb c.stable_mm (max k.high d - min k.low d)
    then record k { low = d; high = d; count = 1 }
    else record k { low = min k.low d; high = max k.high d; count = min (k.count + 1) 5 }

-- The last part of `update`: the tap is closed and the sample is new and fresh.
unfoldable pub on_idle : Settings → Sample → Control → Control
unfolding reset_ready collect sub32
on_idle c s k =
    let d = stable_distance s in
    if leb d c.stop_mm || ltb c.max_mm d || leb s.mm c.stop_mm || leb c.tray_mm (s.mm + 20)
    then reset_ready k
    else let k' =
        if not (k.count == 0) && ltb c.stale_ms (sub32 s.at k.last_valid)
        then reset_ready k
        else k in
      record (collect c d k') { previous = s.mm; last_valid = s.at }

unfoldable pub is_fresh : Settings → Sample → ℕ → Bool
unfolding sub32
is_fresh c s now = s.valid && leb (sub32 now s.at) c.stale_ms

-- `update` after the three deadlines.
unfoldable pub on_sample : Settings → Sample → ℕ → Control → Control
unfolding is_fresh
on_sample c s now k =
    if s.sequence == k.seen
    then k
    else let k' = record k { seen = s.sequence } in
      if not (is_fresh c s now)
      then on_invalid c s now k'
      else if k.pouring
      then on_pouring c s k'
      else on_idle c s k'

unfoldable pub update : Settings → Sample → ℕ → Control → Control
unfolding stop sub32
update c s now k =
    if k.pouring && leb c.max_pour_ms (sub32 now k.started)
    then stop maximum_pour_time k
    else if k.pouring && ltb c.stale_ms (sub32 now k.last_valid)
    then stop lidar_stale k
    else if k.pouring && k.startup_dropout_pending && leb startup_recovery_ms (sub32 now k.started)
    then stop recovery_timeout k
    else on_sample c s now k

-- The new state, and whether the tap was opened.
unfoldable pub start : Settings → ℕ → Control → Control × Bool
unfolding ready
start c now k =
    if ready c now k
    then (
      record k {
        startup_dropout_used = false;
        startup_dropout_pending = false;
        pouring = true;
        started = now;
        reason = pouring_reason;
      },
      true,
    )
    else (record k { reason = start_rejected }, false)

-- Repeated calls of `update`, each with the sample and the clock of its round.
unfoldable pub run : Settings → List (Sample × ℕ) → Control → Control
run c [] k = k
run c ((s, now) ∷ es) k = run c es (update c s now k)
