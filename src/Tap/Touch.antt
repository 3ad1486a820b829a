-- ===== src/Tap/Touch.antt =====
-- touchpour/main/emergency_touch.h: any new contact while pouring asks for a stop.
use keg_scale_espdisplay.Prelude.{ℕ, Bool, true, false, not, ◌&&◌, ◌||◌, ◌==◌, if◌then◌else◌}
pub mod Laws
pub mod Examples

pub record EmergencyTouch : Type 0 where
  pub down : Bool
  pub consumed : Bool

abbrev pub new_touch : EmergencyTouch
new_touch = record { down = false; consumed = false }

-- The new state, and whether the tap must close.
unfoldable pub update : Bool → ℕ → Bool → EmergencyTouch → EmergencyTouch × Bool
update healthy count pouring t =
    if not healthy
    then (record t { consumed = true }, pouring)
    else if count == 0
    then (record { down = false; consumed = false }, false)
    else let stop = pouring && not t.down in
      (record { down = true; consumed = stop || t.consumed }, stop)
