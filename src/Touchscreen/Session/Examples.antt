-- ===== src/Touchscreen/Session/Examples.antt =====
-- One message of a session, with a client that takes every frame and one that takes ten bytes.
use keg_scale_espdisplay.Prelude.{◌≡◌, refl, ◌⊎◌, true, false, [], ◌∷◌, length, pos}
use keg_scale_espdisplay.Touchscreen.Link.{no_link, cl_seal}
use keg_scale_espdisplay.Touchscreen.Link.Examples.{toy_psa, display_end}
use keg_scale_espdisplay.Touchscreen.Session.{
  Session, connection_session_reset, Client, connection_session_send_secure,
}
use keg_scale_espdisplay.Touchscreen.Session.Sending.{
  Counted, CutShort, NotTried, connection_session_send_secure-counts,
}

abbrev whole : Client
whole = record { exists = true; is_connected = true; accepts = λ frame. pos (length frame) }

abbrev partial : Client
partial = record whole { accepts = λ frame. pos 10 }

abbrev active : Session
active = record {
  link = display_end;
  calibration_session_id = 0;
  last_state = 0;
  next_connection_attempt = 0;
  authenticated = true;
  traffic_ready = true;
  retry_connection = false;
  online = true;
}

sends-tx_seq :
    ((connection_session_send_secure toy_psa whole (104 ∷ []) 7 active).0.link.tx_seq ≡ 5)
    × ((connection_session_send_secure toy_psa partial (104 ∷ []) 7 active).0.link.tx_seq ≡ 4)
unfolding connection_session_send_secure cl_seal
sends-tx_seq = (refl, refl)

resets : (connection_session_reset active).0.link ≡ no_link
unfolding connection_session_reset
resets = refl

connection_session_send_secure-counts_example :
    let sealed = (cl_seal toy_psa (104 ∷ []) active.link).1 in
    let r = connection_session_send_secure toy_psa partial (104 ∷ []) 7 active in
    Counted partial active sealed r
    ⊎ (CutShort partial 7 active sealed r ⊎ NotTried partial active sealed r)
connection_session_send_secure-counts_example =
    connection_session_send_secure-counts toy_psa partial (104 ∷ []) 7 active
