-- ===== src/Tap/Button.antt =====
-- touchpour/components/tap_control/button_gesture.h: the debounced button.
use keg_scale_espdisplay.Prelude.{ℕ, Bool, true, false, not, ◌&&◌, leb, if◌then◌else◌, same, sub32}
pub mod Laws
pub mod Examples

pub record ButtonEvent : Type 0 where
  pub pressed : Bool
  pub released : Bool
  pub short_press : Bool
  pub long_press : Bool

abbrev pub no_event : ButtonEvent
no_event = record { pressed = false; released = false; short_press = false; long_press = false }

pub record ButtonGesture : Type 0 where
  pub raw_previous : Bool
  pub debounced : Bool
  pub armed : Bool
  pub blocked : Bool
  pub long_sent : Bool
  pub edge : ℕ
  pub pressed_at : ℕ

abbrev pub debounce_ms : ℕ
debounce_ms = 30

abbrev pub hold_ms : ℕ
hold_ms = 2000

unfoldable pub new_gesture : Bool → ℕ → ButtonGesture
new_gesture high now = record {
  raw_previous = high;
  debounced = high;
  armed = high;
  blocked = not high;
  long_sent = false;
  edge = now;
  pressed_at = 0;
}

unfoldable pub cancel_until_release : ButtonGesture → ButtonGesture
cancel_until_release g = record g { blocked = true }

-- The first statement of `update`.
unfoldable pub note_edge : Bool → ℕ → ButtonGesture → ButtonGesture
note_edge high now g =
    if same high g.raw_previous then g else record g { raw_previous = high; edge = now }

-- The debounced change of level.
unfoldable pub settle : Bool → ℕ → Bool → ButtonGesture → ButtonGesture × ButtonEvent
unfolding sub32
settle high now busy g =
    if leb debounce_ms (sub32 now g.edge) && not (same high g.debounced)
    then (if high
        then (
          record g { debounced = high; armed = true; blocked = false; long_sent = false },
          record no_event {
            released = true;
            short_press = g.armed && not g.blocked && not g.long_sent;
          },
        )
        else if g.armed
        then (
          record g { debounced = high; pressed_at = now; blocked = busy; long_sent = false },
          record no_event { pressed = true },
        )
        else (record g { debounced = high }, no_event))
    else (g, no_event)

-- The long press.
unfoldable pub hold : Bool → ℕ → ButtonGesture × ButtonEvent → ButtonGesture × ButtonEvent
unfolding sub32
hold high now (g, e) =
    if not high
      && not g.debounced
      && g.armed
      && not g.blocked
      && not g.long_sent
      && leb hold_ms (sub32 now g.pressed_at)
    then (record g { long_sent = true }, record e { long_press = true })
    else (g, e)

unfoldable pub update : Bool → ℕ → Bool → ButtonGesture → ButtonGesture × ButtonEvent
unfolding note_edge settle hold
update high now busy g = hold high now (settle high now busy (note_edge high now g))
