-- ===== src/Touchscreen/Session.antt =====
-- touchscreen/main/connection_session.cpp, `connection_session_reset` and
-- `connection_session_send_secure`. The WebSocket client is an argument. The fields of
-- `ScaleConnection` are those that the two functions use.
use keg_scale_espdisplay.Prelude.{
  ℕ, Bool, true, false, not, ◌||◌, Option, none, some, List, ◌==◌, if◌then◌else◌, length, ℤ, pos,
  negsuc,
}
use keg_scale_espdisplay.Touchscreen.Link.{Link, Psa, cl_seal, cl_clear}
pub mod Sending
pub mod Handshake
pub mod Pairing
pub mod Examples

pub record Session : Type 0 where
  pub link : Link
  pub calibration_session_id : ℕ
  pub last_state : ℕ
  pub next_connection_attempt : ℕ
  pub authenticated : Bool
  pub traffic_ready : Bool
  pub retry_connection : Bool
  pub online : Bool

pub record SessionResetSnapshot : Type 0 where
  pub was_authenticated : Bool
  pub was_online : Bool

unfoldable pub connection_session_reset : Session → Session × SessionResetSnapshot
connection_session_reset c = (
  record c {
    authenticated = false;
    traffic_ready = false;
    online = false;
    last_state = 0;
    calibration_session_id = 0;
    link = cl_clear c.link;
  },
  record { was_authenticated = c.authenticated; was_online = c.online },
)

-- The client as a send finds it: whether there is one, whether it is connected, and how many bytes
-- of a frame it accepts (an error, a negative number in the source, is none).
pub record Client : Type 0 where
  pub exists : Bool
  pub is_connected : Bool
  pub accepts : List ℕ → ℤ

abbrev pub all_sent : ℤ → ℕ → Bool
all_sent (pos n) len = n == len
all_sent (negsuc n) len = false

-- The frame, if there is one, is sent; `staged` is the session that `cl_seal` advanced.
abbrev pub send_sealed : Client → ℕ → Link → Option (List ℕ) → Session → Session × Bool
send_sealed w now_us staged none c = (c, false)
send_sealed w now_us staged (some frame) c =
    if not w.exists || not w.is_connected
    then (c, false)
    else if not (all_sent (w.accepts frame) (length frame))
    then (
      record c { traffic_ready = false; retry_connection = true; next_connection_attempt = now_us },
      false,
    )
    else (record c { link = record c.link { tx_seq = staged.tx_seq } }, true)

unfoldable pub connection_session_send_secure : Psa → Client → List ℕ → ℕ → Session → Session × Bool
unfolding cl_seal
connection_session_send_secure psa w plain now_us c =
    let (staged, frame) = cl_seal psa plain c.link in send_sealed w now_us staged frame c
