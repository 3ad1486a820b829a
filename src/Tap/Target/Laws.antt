-- ===== src/Tap/Target/Laws.antt =====
-- pour_target.h and idle_status.h: targets, and what the screen says against what START does.
use keg_scale_espdisplay.Prelude.{ℕ, ◌+◌, ◌≤◌, ◌<◌, ◌≡◌, ◌≢◌, ◌↔◌, ◌⊎◌, true, false, arith}
use keg_scale_espdisplay.Tap.Settings.{Settings, Sample, stable_distance}
use keg_scale_espdisplay.Tap.Control.{Reason, Control, ready, update}
use keg_scale_espdisplay.Tap.Control.Safety.{Forgiven, update_pouring_iff}
use keg_scale_espdisplay.Tap.Target.{
  target_ready, half_ready, for_target, cup_ready, is_pwm_failure, idle_status,
}

-- With settings whose range is not empty, the screen says that the cup is ready exactly when there
-- is no servo failure, the tap is ready for the full target, and the cup is inside the range.
pub idle_status-target_ready :
    (c : Settings) (s : Sample) (now : ℕ) (k : Control) (why : Reason)
    → c.stop_mm < c.max_mm
    → (idle_status c s now (ready c now k) why ≡ cup_ready) ↔ (
        (is_pwm_failure why ≡ false)
        × (target_ready c k s now c.stop_mm ≡ true)
        × (stable_distance s ≤ c.max_mm)
        × (s.mm + 20 < c.tray_mm))
unfolding idle_status target_ready ready
idle_status-target_ready c s now k why v = (λ h. ground arith, λ h. ground arith)

-- A half target that is offered is above the full cutoff, and a pour to it goes on over a new
-- sample only while the reading stays above the half target, or the sample is the forgiven one.
pub half_ready-GoesOn :
    (c : Settings) (k k' : Control) (s s' : Sample) (now now' target : ℕ)
    → half_ready c k s now target ≡ true
    → (update (for_target c target) s' now' k').pouring ≡ true
    → s'.sequence ≢ k'.seen
    → (c.stop_mm < target) × ((target < s'.mm) ⊎ Forgiven (for_target c target) s' now' k')
unfolding half_ready for_target
half_ready-GoesOn c k k' s s' now now' target h p n =
    let (_, _, g) = (update_pouring_iff (for_target c target) s' now' k').0 p in ground arith
