-- ===== src/Touchscreen/Transport/Examples.antt =====
-- A message in two parts for the second scale.
use keg_scale_espdisplay.Prelude.{
  ℕ, ◌/◌, ◌%◌, ◌≡◌, refl, inr, true, false, List, [], ◌∷◌, ◌++◌, arith, ◌==◌, if◌then◌else◌, length,
}
use keg_scale_espdisplay.Touchscreen.Transport.{
  no_frame, ScaleConnection, Transport, retire_transport_async, transport_retirement, disconnected,
  error, received, socket_event,
}
use keg_scale_espdisplay.Touchscreen.Transport.Bounds.{InBounds, socket_event-InBounds}
use keg_scale_espdisplay.Touchscreen.Transport.Messages.{part_of, feed, joined, feed-frames}

abbrev linked : ScaleConnection
linked = record {
  assembly = no_frame;
  generation = 3;
  disconnect_reported_generation = 2;
  retirement_pending = false;
}

abbrev two_scales : Transport
two_scales = record {
  connection_0 = linked;
  connection_1 = linked;
  frames = [];
  retired_transports = [];
}

abbrev two_parts : List (List ℕ)
two_parts = (1 ∷ 2 ∷ []) ∷ (3 ∷ []) ∷ []

-- The token of generation 3 and the second slot is 7.
two_parts-frames :
    (feed 7 2 3 0 two_parts two_scales).frames
    ≡ record { slot = 1; generation = 3; kind = 4; bytes = 1 ∷ 2 ∷ 3 ∷ [] } ∷ []
unfolding socket_event
two_parts-frames = refl

-- Two disconnects of one generation give one frame, and an old event none.
disconnects-frames :
    (socket_event 5 error (socket_event 7 disconnected (socket_event 7 error two_scales))).frames
    ≡ record { slot = 1; generation = 3; kind = 2; bytes = [] } ∷ []
unfolding socket_event
disconnects-frames = refl

retires :
    let (t, ok) = retire_transport_async 1 9 3 two_scales in
    (t.connection_1.retirement_pending ≡ true)
    × ((transport_retirement t).connection_1.retirement_pending ≡ false)
unfolding retire_transport_async transport_retirement
retires = (refl, refl)

two_scales-InBounds : InBounds two_scales
two_scales-InBounds = record {
  assembly_0 = omega arith;
  assembly_1 = omega arith;
  queued = omega arith;
  sent = tt;
}

socket_event-InBounds_example :
    InBounds (socket_event 7 (received (part_of 2 3 0 (1 ∷ 2 ∷ []))) two_scales)
socket_event-InBounds_example =
    socket_event-InBounds 7 (received (part_of 2 3 0 (1 ∷ 2 ∷ []))) two_scales two_scales-InBounds

feed-frames_example :
    (feed 7 2 (length (joined two_parts)) 0 two_parts two_scales).frames
    ≡ two_scales.frames
      ++ record {
        slot = 7 % 2;
        generation = 7 / 2;
        kind = if 2 == 1 then 3 else 4;
        bytes = joined two_parts;
      }
        ∷ []
unfolding keg_scale_espdisplay.Touchscreen.Transport.connection_for
feed-frames_example =
    feed-frames 7 2 two_parts two_scales (inr refl) (omega arith) (omega arith)
      (omega arith, (omega arith, tt)) refl (omega arith)
