-- ===== src/Tap/Controller/Phases.antt =====
-- What each phase of a round of `controller_task` leaves alone.
use keg_scale_espdisplay.Prelude.{◌≡◌, refl, ◌⊎◌, Bool, true, false, arith}
use keg_scale_espdisplay.Tap.Settings.{Settings}
use keg_scale_espdisplay.Tap.Control.{Control}
use keg_scale_espdisplay.Tap.Control
use keg_scale_espdisplay.Tap.Control.Safety.{update-InTime}
use keg_scale_espdisplay.Tap.Device.{Device, pouring_active, Input}
use keg_scale_espdisplay.Tap.Sense.{
  read_button, release_hold, follow_sample, limit_hold, end_hold, sense,
}

-- No pour of either kind, and no servo test.
abbrev pub Idle : Device → Type 0
Idle d = (d.control.pouring ≡ false) × (d.manual_hold.pouring ≡ false) × (d.manual_deadline ≡ 0)

abbrev pub Shut : Device → Type 0
Shut d = (d.control.pouring ≡ false) × (d.manual_hold.pouring ≡ false)

-- The tap is not open for a normal pour and a manual fill at once.
abbrev pub Exclusive : Device → Type 0
Exclusive d = (d.control.pouring ≡ false) ⊎ (d.manual_hold.pouring ≡ false)

-- The fields that only actions and other tasks write.
abbrev pub SameRequests : Device → Device → Type 0
SameRequests d d' =
    (d'.settings ≡ d.settings)
    × (d'.sample ≡ d.sample)
    × (d'.actions ≡ d.actions)
    × (d'.stop_requested ≡ d.stop_requested)
    × (d'.firmware_updating ≡ d.firmware_updating)
    × (d'.web_operation ≡ d.web_operation)
    × (d'.manual_deadline ≡ d.manual_deadline)
    × (d'.half_stop_mm ≡ d.half_stop_mm)

module _ (i : Input) (d : Device) where
  pub sense-SameRequests : SameRequests d (sense i d).0
  unfolding sense
  sense-SameRequests = ground arith

  pub sense-was : (sense i d).1.was ≡ pouring_active d
  unfolding sense
  sense-was = refl

  pub sense-event : (sense i d).1.event ≡ (read_button i d).1
  unfolding sense
  sense-event = refl

  update-pouring :
      (c : Settings)
      → (Control.update c d.sample i.now d.control).pouring ≡ true
      → d.control.pouring ≡ true
  update-pouring c h = (update-InTime c d.sample i.now d.control h).0

  follow_sample-Shut : Shut d → Shut (follow_sample i d)
  unfolding follow_sample
  follow_sample-Shut h =
      ground (arith, update-pouring d.settings, update-pouring d.selected_settings)

  follow_sample-Exclusive : Exclusive d → Exclusive (follow_sample i d)
  unfolding follow_sample
  follow_sample-Exclusive h = ground arith

  release_hold-Shut : Shut d → Shut (release_hold i d)
  unfolding release_hold
  release_hold-Shut h = ground arith

  release_hold-Exclusive : Exclusive d → Exclusive (release_hold i d)
  unfolding release_hold
  release_hold-Exclusive h = ground arith

  limit_hold-Shut : Shut d → Shut (limit_hold i d)
  unfolding limit_hold Control.stop
  limit_hold-Shut h = ground arith

  limit_hold-Exclusive : Exclusive d → Exclusive (limit_hold i d)
  unfolding limit_hold Control.stop
  limit_hold-Exclusive h = ground arith

  end_hold-Shut : (held : Bool) → Shut d → Shut (end_hold held d)
  unfolding end_hold Control.stop
  end_hold-Shut held h = ground arith

  end_hold-Exclusive : (held : Bool) → Exclusive d → Exclusive (end_hold held d)
  unfolding end_hold Control.stop
  end_hold-Exclusive held h = ground arith

module _ (i : Input) (d : Device) where
  -- The start of a round opens nothing.
  pub sense-Shut : Shut d → Shut (sense i d).0
  unfolding sense
  sense-Shut h =
      let d₁ = (read_button i d).0 in
      let d₂ = release_hold i d₁ in
      let d₃ = follow_sample i d₂ in
      end_hold-Shut i (limit_hold i d₃) d.manual_hold.pouring
        (limit_hold-Shut i d₃ (follow_sample-Shut i d₂ (release_hold-Shut i d₁ h)))

  pub sense-Exclusive : Exclusive d → Exclusive (sense i d).0
  unfolding sense
  sense-Exclusive h =
      let d₁ = (read_button i d).0 in
      let d₂ = release_hold i d₁ in
      let d₃ = follow_sample i d₂ in
      end_hold-Exclusive i (limit_hold i d₃) d.manual_hold.pouring
        (limit_hold-Exclusive i d₃ (follow_sample-Exclusive i d₂ (release_hold-Exclusive i d₁ h)))
