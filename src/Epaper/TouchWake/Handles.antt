-- ===== src/Epaper/TouchWake/Handles.antt =====
-- touch_wake.c, `touch_wake_calibrate`: which handles are open after it.
use keg_scale_espdisplay.Esp.{Err, is_ok}
use keg_scale_espdisplay.Epaper.TouchWake.Calibrate.{
  no_calibration, Run, conclude, stages, with_enabled, with_context, when_reported,
  touch_wake_calibrate,
}
use keg_scale_espdisplay.Epaper.TouchWake.Keeping.{Kept, stages-Kept}
use keg_scale_espdisplay.Prelude.{
  ℕ, ◌+◌, ◌≡◌, refl, ◌⊎◌, inl, false, Option, none, some, arith, bit,
}
use keg_scale_espdisplay.Epaper.TouchWake.{
  Driver, World, Context, Touch, drop_context, touch_context_create, touch_context_destroy,
  touch_context_enable,
}
use keg_scale_espdisplay.Epaper.TouchWake.Sampling.{report_progress}

-- The context holds just what was opened since the world `w`.
abbrev Holds : World → Touch → Type 0
Holds w t =
    (t.world.controllers ≡ w.controllers + bit t.context.sensor)
    × (t.world.channels ≡ w.channels + bit t.context.channel)
    × (t.world.enables ≡ w.enables + bit t.context.enabled)
    × (t.world.scannings ≡ w.scannings + bit t.context.scanning)

-- What is open after a call that gives `answer` has closed what was opened: nothing more than
-- before, or the one handle that the call failed to close.
abbrev pub ClosedBy : Option Err → ℕ → ℕ → Type 0
ClosedBy answer before after = (after ≡ before) ⊎ ((is_ok answer ≡ false) × (after ≡ before + 1))

abbrev pub AllClosedBy : Driver → World → World → Type 0
AllClosedBy d w v =
    ClosedBy d.del_controller w.controllers v.controllers
    × ClosedBy d.del_channel w.channels v.channels
    × ClosedBy d.disable_at_end w.enables v.enables
    × ClosedBy d.stop w.scannings v.scannings

-- The context names no handle.
abbrev pub IsCleared : Context → Type 0
IsCleared c = (c.sensor ≡ false) × (c.channel ≡ false) × (c.enabled ≡ false) × (c.scanning ≡ false)

abbrev Closed : Driver → World → Touch → Type 0
Closed d w t = AllClosedBy d w t.world × IsCleared t.context

Kept-Holds : (w : World) (r s : Run) → Kept r s → Holds w r.touch → Holds w s.touch
Kept-Holds w r s k h = ground (arith, k, h)

module _ (d : Driver) where
  destroy-Closed : (w : World) (t : Touch) → Holds w t → Closed d w (touch_context_destroy d t)
  unfolding touch_context_destroy
  destroy-Closed w t h = (ground (arith, h), (refl, refl, refl, refl))

  conclude-Closed :
      (w : World) (x : Run × Option Err) → Holds w x.0.touch → Closed d w (conclude d x).0.touch
  conclude-Closed w (r, none) h = destroy-Closed w r.touch h
  conclude-Closed w (r, some e) h = destroy-Closed w r.touch h

  create-Holds :
      (w : World)
      → (touch_context_create d w).1 ≡ none
      → Holds w (touch_context_create d w).0
        × ((touch_context_create d w).0.context.enabled ≡ false)
  unfolding touch_context_create
  create-Holds w h = ground arith

  create-Closed :
      (w : World)
      → is_ok (touch_context_create d w).1 ≡ false
      → Closed d w (touch_context_create d w).0
  unfolding touch_context_create drop_context
  create-Closed w h = ground arith

  enable-Holds :
      (w : World) (t : Touch)
      → Holds w t
      → t.context.enabled ≡ false
      → Holds w (touch_context_enable d false t).0
  unfolding touch_context_enable
  enable-Holds w t h off = ground (arith, h)

  with_enabled-Closed :
      (w : World) (x : Touch × Option Err) → Holds w x.0 → Closed d w (with_enabled d x).0.touch
  with_enabled-Closed w (t, some e) h = destroy-Closed w t h
  with_enabled-Closed w (t, none) h =
      let r : Run = record { touch = t; result = no_calibration } in
      conclude-Closed w (stages d r) (Kept-Holds w r (stages d r).0 (stages-Kept d r) h)

  with_context-Closed :
      (w : World) (x : Touch × Option Err)
      → (x.1 ≡ none → Holds w x.0 × (x.0.context.enabled ≡ false))
      → (is_ok x.1 ≡ false → Closed d w x.0)
      → Closed d w (with_context d x).0.touch
  with_context-Closed w (t, none) h k =
      with_enabled-Closed w (touch_context_enable d false t)
        (enable-Holds w t (h refl).0 (h refl).1)
  with_context-Closed w (t, some e) h k = k refl

  when_reported-Closed : (x : World × Option Err) → Closed d x.0 (when_reported d x).0.touch
  when_reported-Closed (w, some e) =
      ((inl refl, inl refl, inl refl, inl refl), (refl, refl, refl, refl))
  when_reported-Closed (w, none) =
      with_context-Closed w (touch_context_create d w) (create-Holds w) (create-Closed w)

  -- Whatever the driver, the clock and the callback answer, on every error path too, the context
  -- names no handle after a calibration, and the controllers, the channels, the enabled sensors and
  -- the scans that are open are those from before it, with one more of a kind only where the call
  -- that closes this kind failed.
  pub touch_wake_calibrate-handles :
      (w : World)
      → (let t = (touch_wake_calibrate d w).0.touch in
          AllClosedBy d w t.world × IsCleared t.context)
  unfolding touch_wake_calibrate report_progress
  touch_wake_calibrate-handles w = when_reported-Closed (report_progress d w)
