-- ===== src/Touchscreen/Session/Sending.antt =====
-- connection_session.cpp, `connection_session_send_secure`: what a send leaves, by what
-- became of the frame.
use keg_scale_espdisplay.Prelude.{
  ℕ, ◌+◌, ◌≡◌, refl, ap, ◌∙◌, ◌≢◌, ◌⊎◌, inl, inr, Bool, true, false, Option, none, some, List,
  arith, Bool-cases, length, ℤ, pos, negsuc,
}
use keg_scale_espdisplay.Touchscreen.Link.Replay.{cl_seal-Sealed}
use keg_scale_espdisplay.Touchscreen.Link.{Link, Psa, cl_seal}
use keg_scale_espdisplay.Touchscreen.Session.{
  Session, Client, all_sent, send_sealed, connection_session_send_secure,
}

-- There is a frame, and a connected client to take it.
abbrev pub Offered : Client → Option (List ℕ) → List ℕ → Type 0
Offered w sealed frame = (sealed ≡ some frame) × (w.exists ≡ true) × (w.is_connected ≡ true)

-- The client took the whole frame, and the session counts it.
abbrev pub Counted : Client → Session → Option (List ℕ) → Session × Bool → Type 0
Counted w c sealed r =
    (frame : List ℕ) × Offered w sealed frame
    × (w.accepts frame ≡ pos (length frame))
    × (r ≡ (record c { link = record c.link { tx_seq = c.link.tx_seq + 1 } }, true))

-- The client took another number of bytes or failed: the session counts nothing, carries no more
-- traffic, and connects again at once.
abbrev pub CutShort : Client → ℕ → Session → Option (List ℕ) → Session × Bool → Type 0
CutShort w now_us c sealed r =
    (frame : List ℕ) × Offered w sealed frame
    × (w.accepts frame ≢ pos (length frame))
    × (r ≡ (
      record c { traffic_ready = false; retry_connection = true; next_connection_attempt = now_us },
      false,
    ))

-- Nothing was sent, for want of a frame, a client or a connection.
abbrev pub NotTried : Client → Session → Option (List ℕ) → Session × Bool → Type 0
NotTried w c sealed r =
    ((sealed ≡ none) ⊎ ((w.exists ≡ false) ⊎ (w.is_connected ≡ false))) × (r ≡ (c, false))

all_sent→eq : (z : ℤ) (n : ℕ) → all_sent z n ≡ true → z ≡ pos n
all_sent→eq (pos m) n h = let e : m ≡ n = ground (arith, h) in ap pos e
all_sent→eq (negsuc m) n h = absurd (ground (arith, h))

all_sent_pos : (n : ℕ) → all_sent (pos n) n ≡ true
all_sent_pos n = ground arith

all_sent→neq : (z : ℤ) (n : ℕ) → all_sent z n ≡ false → z ≢ pos n
all_sent→neq z n h e =
    let t : all_sent z n ≡ true = ap (λ x. all_sent x n) e ∙ all_sent_pos n in ground (arith, h, t)

module _ (w : Client) (now_us : ℕ) (staged : Link) (c : Session) where
  send_sealed-outcome :
      (sealed : Option (List ℕ))
      → ((frame : List ℕ) → sealed ≡ some frame → staged.tx_seq ≡ c.link.tx_seq + 1)
      → (let r = send_sealed w now_us staged sealed c in
          Counted w c sealed r ⊎ (CutShort w now_us c sealed r ⊎ NotTried w c sealed r))
  send_sealed-outcome none h = inr (inr (inl refl, refl))
  send_sealed-outcome (some frame) h = elim (Bool-cases w.exists) [
    | inr x ↦ rw x (inr (inr (inr (inl refl), refl)))
    | inl x ↦ elim (Bool-cases w.is_connected) [
      | inr y ↦ rw (x, y) (inr (inr (inr (inr refl), refl)))
      | inl y ↦ elim (Bool-cases (all_sent (w.accepts frame) (length frame))) [
        | inl f ↦
            let k =
              ap (λ m. (record c { link = record c.link { tx_seq = m } }, true)) (h frame refl) in
            rw (x, y, f)
              (inl (frame, (refl, refl, refl), all_sent→eq (w.accepts frame) (length frame) f, k))
        | inr f ↦
            let n = all_sent→neq (w.accepts frame) (length frame) f in
            rw (x, y, f) (inr (inl (frame, (refl, refl, refl), n, refl)))
      ]
    ]
  ]

-- A send succeeds exactly where there is a sealed frame and a connected client that takes just its
-- length: then the sequence number alone goes on, by one. Where the client takes another number of
-- bytes or fails, the send fails, the sequence number stays, and the session stops its traffic and
-- asks for a new connection now. Without a frame, a client or a connection it fails and changes
-- nothing.
pub connection_session_send_secure-counts :
    (psa : Psa) (w : Client) (plain : List ℕ) (now_us : ℕ) (c : Session)
    → (let sealed = (cl_seal psa plain c.link).1 in
        let r = connection_session_send_secure psa w plain now_us c in
        Counted w c sealed r ⊎ (CutShort w now_us c sealed r ⊎ NotTried w c sealed r))
unfolding connection_session_send_secure
connection_session_send_secure-counts psa w plain now_us c =
    let (staged, sealed) = cl_seal psa plain c.link in
    send_sealed-outcome w now_us staged c sealed
      (λ frame e. ap (λ (x : Link). x.tx_seq) (cl_seal-Sealed psa c.link plain frame e).5)
