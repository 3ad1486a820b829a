-- ===== src/Touchscreen/Session/Handshake.antt =====
-- touchscreen/main/connection_session.cpp, `connection_session_prepare_hello` and
-- `connection_session_accept_handshake`. The random bytes and the key store are arguments; the
-- pointers to results and texts are never NULL.
use keg_scale_espdisplay.Prelude.{
  ℕ, ◌+◌, ◌-◌, ◌/◌, ◌%◌, ◌^◌, min, Bool, true, false, not, ◌&&◌, Option, none, some, List, [], ◌∷◌,
  ◌++◌, ltb, ◌==◌, if◌then◌else◌, take, ℤ, pos, negsuc,
}
use keg_scale_espdisplay.Esp.{Err, fail, invalid_arg, invalid_state}
use keg_scale_espdisplay.Touchscreen.Hex.{cl_hex, cl_unhex}
use keg_scale_espdisplay.Touchscreen.Link.{Link, Psa, cl_start}
use keg_scale_espdisplay.Touchscreen.Agreement.{KeyStore, cl_keypair, cl_agree}

-- The fields of `ScaleConnection` that the two functions use.
pub record Peering : Type 0 where
  pub link : Link
  pub client_nonce : List ℕ
  pub own_public : List ℕ
  pub pairing_deadline_us : ℕ
  pub traffic_ready : Bool

pub record HandshakeResult : Type 0 where
  pub pairing : Bool
  pub send_auth : Bool
  pub approval_seconds : ℕ
  pub approval_code : List ℕ

abbrev pub no_result : Bool → HandshakeResult
no_result pairing = record {
  pairing = pairing;
  send_auth = false;
  approval_seconds = 0;
  approval_code = [];
}

-- The texts of the hello message: up to the firmware, before the public key, before the nonce, and
-- the end.
abbrev hello_start : List ℕ
hello_start =
    123 ∷ 34 ∷ 116 ∷ 121 ∷ 112 ∷ 101 ∷ 34 ∷ 58 ∷ 34 ∷ 104 ∷ 101 ∷ 108 ∷ 108 ∷ 111 ∷ 34 ∷ 44 ∷ 34
    ∷ 112 ∷ 114 ∷ 111 ∷ 116 ∷ 111 ∷ 99 ∷ 111 ∷ 108 ∷ 34 ∷ 58 ∷ 49 ∷ 44 ∷ 34 ∷ 102 ∷ 105 ∷ 114 ∷ 109
    ∷ 119 ∷ 97 ∷ 114 ∷ 101 ∷ 34 ∷ 58 ∷ 34 ∷ []

abbrev hello_public : List ℕ
hello_public = 34 ∷ 44 ∷ 34 ∷ 112 ∷ 117 ∷ 98 ∷ 108 ∷ 105 ∷ 99 ∷ 34 ∷ 58 ∷ 34 ∷ []

abbrev hello_nonce : List ℕ
hello_nonce = 34 ∷ 44 ∷ 34 ∷ 110 ∷ 111 ∷ 110 ∷ 99 ∷ 101 ∷ 34 ∷ 58 ∷ 34 ∷ []

abbrev hello_end : List ℕ
hello_end = 34 ∷ 125 ∷ []

abbrev pub hello_paired : List ℕ → List ℕ → List ℕ
hello_paired firmware nonce = hello_start ++ firmware ++ hello_nonce ++ nonce ++ hello_end

abbrev pub hello_new : List ℕ → List ℕ → List ℕ → List ℕ
hello_new firmware key nonce =
    hello_start ++ firmware ++ hello_public ++ key ++ hello_nonce ++ nonce ++ hello_end

abbrev pub hello_with :
    List ℕ → List ℕ → ℕ → Peering → Link × Option (List ℕ) → Peering × (Option Err × List ℕ)
hello_with firmware nonce size c (s, none) = (record c { link = s }, (some fail, []))
hello_with firmware nonce size c (s, some key) = (
  record c { link = s; own_public = key },
  (none, take (size - 1) (hello_new firmware key nonce)),
)

-- With a saved key, which is absent where `master` is NULL.
abbrev pub hello_saved :
    List ℕ → List ℕ → ℕ → Peering → Option (List ℕ) → Peering × (Option Err × List ℕ)
hello_saved firmware nonce size c none = (c, (some invalid_arg, []))
hello_saved firmware nonce size c (some master) = (
  record c { link = record c.link { master = master } },
  (none, take (size - 1) (hello_paired firmware nonce)),
)

-- The connection, the result, and the text where the result is ESP_OK. `random` are the 32 bytes of
-- `esp_fill_random`.
unfoldable pub prepare_hello :
    KeyStore
    → List ℕ
    → Bool
    → Option (List ℕ)
    → List ℕ
    → ℕ
    → Peering
    → Peering × (Option Err × List ℕ)
unfolding cl_keypair
prepare_hello k random paired master firmware size c =
    let nonce = cl_hex random in
    let fresh : Peering = record c { client_nonce = random } in
    if size == 0
    then (c, (some invalid_arg, []))
    else if paired
    then hello_saved firmware nonce size fresh master
    else hello_with firmware nonce size fresh (cl_keypair k c.link)

-- The seconds that a message names, rounded toward zero, between 0 and 300.
abbrev pub clamped : ℤ → ℕ
clamped (pos n) = min 300 n
clamped (negsuc n) = 0

-- The seconds left until the deadline, rounded up.
unfoldable pub seconds_left : ℕ → ℕ → ℕ
seconds_left deadline_us now_us =
    if ltb now_us deadline_us then (deadline_us - now_us + 999999) / 1000000 % 2 ^ 32 else 0

abbrev pub approval_seconds_of : Option ℤ → ℕ → ℕ → ℕ
approval_seconds_of (some seconds) deadline_us now_us = clamped seconds
approval_seconds_of none deadline_us now_us = seconds_left deadline_us now_us

-- `cl_start` and what follows it.
unfoldable pub start_traffic :
    Psa → List ℕ → HandshakeResult → Peering → Peering × (Option Err × HandshakeResult)
unfolding cl_start
start_traffic psa challenge r c =
    let (s, ok) = cl_start psa challenge c.client_nonce false c.link in
    (
      record c { link = s; traffic_ready = ok },
      (if ok then none else some fail, record r { send_auth = ok && not r.pairing }),
    )

abbrev pub agreed_or :
    Psa
    → List ℕ
    → Option ℤ
    → ℕ
    → Peering
    → Link × (Option Err × List ℕ)
    → Peering × (Option Err × HandshakeResult)
agreed_or psa challenge seconds now_us c (s, (some e, code)) =
    (record c { link = s }, (some e, no_result true))
agreed_or psa challenge seconds now_us c (s, (none, code)) =
    start_traffic psa challenge
      (record {
        pairing = true;
        send_auth = false;
        approval_seconds = approval_seconds_of seconds c.pairing_deadline_us now_us;
        approval_code = code;
      })
      (record c { link = s })

abbrev pub accept_with :
    Psa
    → KeyStore
    → Bool
    → Bool
    → List ℕ
    → Option ℤ
    → ℕ
    → Peering
    → Option (List ℕ)
    → Peering × (Option Err × HandshakeResult)
accept_with psa k saved pairing remote seconds now_us c none = (c, (some fail, no_result pairing))
accept_with psa k saved pairing remote seconds now_us c (some challenge) =
    if pairing
    then agreed_or psa challenge seconds now_us c (cl_agree psa k remote remote c.own_public c.link)
    else if not saved
    then (c, (some invalid_state, no_result pairing))
    else start_traffic psa challenge (no_result pairing) c

-- The text of the remote key is empty where it is NULL.
unfoldable pub accept_handshake :
    Psa
    → KeyStore
    → Bool
    → Bool
    → List ℕ
    → List ℕ
    → ℕ
    → Option ℤ
    → Peering
    → Peering × (Option Err × HandshakeResult)
unfolding cl_agree seconds_left start_traffic cl_unhex
accept_handshake psa k saved pairing challenge remote now_us seconds c =
    accept_with psa k saved pairing remote seconds now_us c (cl_unhex challenge 32)
