-- ===== src/Tap/Target/Examples.antt =====
-- A half target of 150 mm.
use keg_scale_espdisplay.Prelude.{false}
use keg_scale_espdisplay.Tap.Control.{Control}
use keg_scale_espdisplay.Tap.Control.Examples.{open_tap}

abbrev closed_tap : Control
closed_tap = record open_tap { pouring = false }
