-- ===== src/Touchscreen/Link/Replay.antt =====
-- controller_link.c, `cl_seal` and `cl_open`: what one side seals the other opens, once.
use keg_scale_espdisplay.Prelude.{
  ℕ, ◌+◌, ◌/◌, ◌%◌, ◌^◌, ◌≤◌, ◌<◌, ◌≡◌, refl, ap, ◌∙◌, ◌≢◌, inl, inr, false, not, ◌||◌, none, some,
  List, ◌++◌, arith, ltb, leb, ◌==◌, if◌then◌else◌, Option-cases, length,
}
use keg_scale_espdisplay.Touchscreen.Link.{
  max_plain, max_seq, Link, Psa, seq_bytes, seq_of, tx_direction, rx_direction, cl_seal, open_seq,
  cl_open,
}

-- The two ends of a connection: one key, and one of them is the server.
abbrev pub Paired : Link → Link → Type 0
Paired s r = (r.traffic ≡ s.traffic) × (r.server ≡ not s.server)

-- AES-GCM: what is encrypted is decrypted under the same key, direction and number, and is 16 bytes
-- longer.
abbrev pub IsAead : Psa → Type 0
IsAead psa =
    (key plain bytes : List ℕ) (direction seq : ℕ)
    → psa.encrypt key direction seq plain ≡ some bytes
    → (psa.decrypt key direction seq bytes ≡ some plain) × (length bytes ≡ length plain + 16)

seq_of-seq_bytes :
    (n : ℕ)
    → n < 2 ^ 32
    → seq_of (n / 2 ^ 24 % 256) (n / 2 ^ 16 % 256) (n / 2 ^ 8 % 256) (n % 256) ≡ n
unfolding seq_of
seq_of-seq_bytes n h = omega arith

-- A frame that was sealed.
abbrev pub Sealed : Psa → Link → List ℕ → List ℕ → Type 0
Sealed psa s plain frame =
    (bytes : List ℕ) × (length plain < max_plain)
    × (s.tx_seq ≢ max_seq)
    × (psa.encrypt s.traffic (tx_direction s) (s.tx_seq + 1) plain ≡ some bytes)
    × (frame ≡ seq_bytes (s.tx_seq + 1) ++ bytes)
    × ((cl_seal psa plain s).0 ≡ record s { tx_seq = s.tx_seq + 1 })

pub cl_seal-Sealed :
    (psa : Psa) (s : Link) (plain frame : List ℕ)
    → (cl_seal psa plain s).1 ≡ some frame
    → Sealed psa s plain frame
unfolding cl_seal
cl_seal-Sealed psa s plain frame e =
    elim (Option-cases (psa.encrypt s.traffic (tx_direction s) (s.tx_seq + 1) plain)) [
      | inl n ↦ absurd (ground (arith, n))
      | inr (bytes, n) ↦
          (bytes, ground (arith, n), ground (arith, n), n, ground (arith, n), ground (arith, n))
    ]

direction-Paired : (s r : Link) → Paired s r → rx_direction r ≡ tx_direction s
direction-Paired s r h = ground arith

open_seq-decrypts :
    (psa : Psa) (n : ℕ) (bytes plain : List ℕ) (r : Link)
    → r.rx_seq < n
    → psa.decrypt r.traffic (rx_direction r) n bytes ≡ some plain
    → open_seq psa n bytes r ≡ (record r { rx_seq = n }, some plain)
open_seq-decrypts psa n bytes plain r h d =
    let e : (n == 0 || leb n r.rx_seq) ≡ false = ground arith in
    let f : psa.decrypt r.traffic (if r.server then 2 else 1) n bytes ≡ some plain = d in
    ground (arith, e, f)

open_seq_old :
    (psa : Psa) (n : ℕ) (bytes : List ℕ) (r : Link)
    → n ≤ r.rx_seq
    → open_seq psa n bytes r ≡ (r, none)
open_seq_old psa n bytes r h = ground arith

cl_open-seq_bytes :
    (psa : Psa) (n : ℕ) (bytes : List ℕ) (r : Link)
    → n < 2 ^ 32
    → 16 ≤ length bytes
    → 4 + length bytes ≤ max_plain + 24
    → cl_open psa (seq_bytes n ++ bytes) r ≡ open_seq psa n bytes r
unfolding cl_open seq_bytes
cl_open-seq_bytes psa n bytes r h l m =
    let e = seq_of-seq_bytes n h in
    let f : (ltb (4 + length bytes) 20 || ltb (max_plain + 24) (4 + length bytes)) ≡ false =
      ground arith in
    rw (f, e) refl

-- What one end seals the other end opens: it gets the text back and its counter is that of the
-- sender, if its counter has not passed the sender's; and the same frame is not opened again.
pub cl_open-cl_seal :
    (psa : Psa) (s r : Link) (plain frame : List ℕ)
    → IsAead psa
    → Paired s r
    → s.tx_seq < 2 ^ 32
    → r.rx_seq ≤ s.tx_seq
    → (cl_seal psa plain s).1 ≡ some frame
    → (let s' = (cl_seal psa plain s).0 in
        let r' : Link = record r { rx_seq = s'.tx_seq } in
        (s'.tx_seq ≡ s.tx_seq + 1)
        × (cl_open psa frame r ≡ (r', some plain))
        × (cl_open psa frame r' ≡ (r', none)))
cl_open-cl_seal psa s r plain frame aead p w o e =
    let (bytes, l, m, enc, f, sent) = cl_seal-Sealed psa s plain frame e in
    let n = s.tx_seq + 1 in
    let (dec, grown) = aead s.traffic plain bytes (tx_direction s) n enc in
    let dec' : psa.decrypt r.traffic (rx_direction r) n bytes ≡ some plain =
      rw (p.0, direction-Paired s r p) dec in
    let opens = λ (x : Link).
      ap (λ g. cl_open psa g x) f
      ∙ cl_open-seq_bytes psa n bytes x (omega arith) (omega (arith, grown))
          (omega (arith, grown, l)) in
    let counts : (cl_seal psa plain s).0.tx_seq ≡ n = ap (λ (x : Link). x.tx_seq) sent in
    (
      counts,
      rw counts (opens r ∙ open_seq-decrypts psa n bytes plain r (omega arith) dec'),
      rw counts (
          opens (record r { rx_seq = n })
          ∙ open_seq_old psa n bytes (record r { rx_seq = n }) (omega arith)),
    )
