-- ===== src/Touchscreen/Session/Pairing.antt =====
-- connection_session.cpp: when a handshake makes the connection ready for traffic.
use keg_scale_espdisplay.Esp.{Err}
use keg_scale_espdisplay.Touchscreen.Hex.{cl_unhex}
use keg_scale_espdisplay.Touchscreen.Agreement.{KeyStore, cl_agree}
use keg_scale_espdisplay.Prelude.{
  ℕ, ◌≤◌, ◌≡◌, refl, ◌⊎◌, inl, inr, Bool, true, false, not, Option, none, some, List, arith, ℤ, pos,
  negsuc,
}
use keg_scale_espdisplay.Touchscreen.Link.{Link, Psa}
use keg_scale_espdisplay.Touchscreen.Session.Handshake.{
  Peering, HandshakeResult, no_result, clamped, approval_seconds_of, start_traffic, agreed_or,
  accept_with, accept_handshake,
}

start_traffic-ready :
    (psa : Psa) (challenge : List ℕ) (r : HandshakeResult) (c : Peering)
    → (start_traffic psa challenge r c).1.0 ≡ none
    → let (d, (e, q)) = start_traffic psa challenge r c in
      (d.traffic_ready ≡ true)
      × (d.link.tx_seq ≡ 0)
      × (d.link.rx_seq ≡ 0)
      × (q.send_auth ≡ not r.pairing)
unfolding start_traffic
start_traffic-ready psa challenge r c h = ground (arith, h)

-- The connection is ready for traffic, with both counters at 0, and authenticates where the scale
-- is not being paired.
abbrev Ready : Bool → Peering × (Option Err × HandshakeResult) → Type 0
Ready pairing (c, (e, q)) =
    (c.traffic_ready ≡ true)
    × (c.link.tx_seq ≡ 0)
    × (c.link.rx_seq ≡ 0)
    × (q.send_auth ≡ not pairing)

module _ (psa : Psa) (k : KeyStore) (seconds : Option ℤ) (now_us : ℕ) where
  agreed_or-Ready :
      (challenge : List ℕ) (c : Peering) (x : Link × (Option Err × List ℕ))
      → (agreed_or psa challenge seconds now_us c x).1.0 ≡ none
      → Ready true (agreed_or psa challenge seconds now_us c x)
  agreed_or-Ready challenge c (s, (some e, code)) h = absurd (ground (arith, h))
  agreed_or-Ready challenge c (s, (none, code)) h =
      start_traffic-ready psa challenge
        (record {
          pairing = true;
          send_auth = false;
          approval_seconds = approval_seconds_of seconds c.pairing_deadline_us now_us;
          approval_code = code;
        })
        (record c { link = s }) h

  accept_with-Ready :
      (saved pairing : Bool) (remote : List ℕ) (c : Peering) (o : Option (List ℕ))
      → (accept_with psa k saved pairing remote seconds now_us c o).1.0 ≡ none
      → ((pairing ≡ true) ⊎ (saved ≡ true))
        × Ready pairing (accept_with psa k saved pairing remote seconds now_us c o)
  accept_with-Ready saved pairing remote c none h = absurd (ground (arith, h))
  accept_with-Ready saved true remote c (some challenge) h =
      (inl refl, agreed_or-Ready challenge c (cl_agree psa k remote remote c.own_public c.link) h)
  accept_with-Ready false false remote c (some challenge) h = absurd (ground (arith, h))
  accept_with-Ready true false remote c (some challenge) h =
      (inr refl, start_traffic-ready psa challenge (no_result false) c h)

  -- A handshake that reports ESP_OK is one of a pairing or of a scale whose pairing is saved, and
  -- leaves the connection ready with both counters at 0; it asks for the authentication message
  -- exactly where no pairing is going on.
  accept_handshake-Ready :
      (saved pairing : Bool) (challenge remote : List ℕ) (c : Peering)
      → (accept_handshake psa k saved pairing challenge remote now_us seconds c).1.0 ≡ none
      → ((pairing ≡ true) ⊎ (saved ≡ true))
        × Ready pairing (accept_handshake psa k saved pairing challenge remote now_us seconds c)
  unfolding accept_handshake
  accept_handshake-Ready saved pairing challenge remote c h =
      accept_with-Ready saved pairing remote c (cl_unhex challenge 32) h

-- The seconds that are shown never exceed 300 where the message names them.
clamped-le : (seconds : ℤ) → clamped seconds ≤ 300
clamped-le (pos n) = omega arith
clamped-le (negsuc n) = omega arith
