-- ===== src/Tap/Sense.antt =====
-- app.cpp, `controller_task`: the start of a round, from the button to the test of
-- `firmware_updating`. Log lines are left out.
use keg_scale_espdisplay.Prelude.{◌+◌, Bool, not, ◌&&◌, ◌||◌, ltb, leb, ◌==◌, if◌then◌else◌, sub32}
use keg_scale_espdisplay.Tap.Settings.{stable_distance}
use keg_scale_espdisplay.Tap.Control.{maximum_pour_time, fill_released, Control, ready, is_fresh}
use keg_scale_espdisplay.Tap.Control
use keg_scale_espdisplay.Tap.Button.{ButtonEvent, cancel_until_release}
use keg_scale_espdisplay.Tap.Button
use keg_scale_espdisplay.Tap.Device.{Device, pouring_active, Input, stop_both}

-- What the statements after the sample has been handled still need of the start of the round.
pub record Seen : Type 0 where
  pub was : Bool
  pub held_was : Bool
  pub event : ButtonEvent
  pub cup_ready : Bool
  pub cup_absent : Bool

abbrev pub cancel_button : Device → Device
cancel_button d = record d { button = cancel_until_release d.button }

abbrev pub testing : Device → Bool
testing d = not (d.manual_deadline == 0)

-- The button is read; `busy` blocks a press that begins now.
unfoldable pub read_button : Input → Device → Device × ButtonEvent
unfolding pouring_active
read_button i d =
    let (b, e) =
      Button.update i.raw_high i.now
        (pouring_active d
          || testing d
          || i.setup_mode
          || d.firmware_updating
          || i.history_saving
          || i.locked)
        d.button in
    (record d { button = b }, e)

-- A released button ends a manual fill at once.
unfoldable pub release_hold : Input → Device → Device
unfolding stop_both
release_hold i d =
    if d.manual_hold.pouring && i.raw_high then cancel_button (stop_both fill_released d) else d

unfoldable pub follow_sample : Input → Device → Device
follow_sample i d = if d.manual_hold.pouring then d else record d {
  control =
      Control.update (if d.control.pouring then d.selected_settings else d.settings) d.sample i.now
        d.control;
}

unfoldable pub is_cup_absent : Input → Device → Bool
unfolding is_fresh
is_cup_absent i d =
    is_fresh d.settings d.sample i.now
    && (ltb d.settings.max_mm (stable_distance d.sample)
        || leb d.settings.tray_mm (d.sample.mm + 20))

-- The longest manual fill.
unfoldable pub limit_hold : Input → Device → Device
unfolding sub32
limit_hold i d =
    if d.manual_hold.pouring && leb d.settings.max_pour_ms (sub32 i.now d.manual_hold.started)
    then record d { manual_hold = Control.stop maximum_pour_time d.manual_hold }
    else d

unfoldable pub end_hold : Bool → Device → Device
end_hold held_was d =
    if held_was && not d.manual_hold.pouring
    then cancel_button (record d { control = Control.stop d.manual_hold.reason d.control })
    else d

-- The round up to the test of `firmware_updating`.
unfoldable pub sense : Input → Device → Device × Seen
unfolding read_button release_hold follow_sample is_cup_absent limit_hold end_hold pouring_active
sense i d =
    let (d₁, e) = read_button i d in
    let d₂ = follow_sample i (release_hold i d₁) in
    (
      end_hold d.manual_hold.pouring (limit_hold i d₂),
      record {
        was = pouring_active d;
        held_was = d.manual_hold.pouring;
        event = e;
        cup_ready = ready d₂.settings i.now d₂.control;
        cup_absent = is_cup_absent i d₂;
      },
    )
