-- ===== src/Touchscreen/Link.antt =====
-- touchscreen/components/controller_link/controller_link.c: the encrypted link. The PSA functions
-- are arguments. A text is the list of its characters before the terminator.
use keg_scale_espdisplay.Prelude.{
  ℕ, ◌+◌, ◌*◌, ◌/◌, ◌%◌, ◌^◌, Bool, true, false, not, ◌||◌, Option, none, some, List, [], ◌∷◌, ◌++◌,
  ltb, leb, ◌==◌, if◌then◌else◌, length, replicate,
}
pub mod Replay
pub mod Examples

abbrev pub max_plain : ℕ
max_plain = 2048

-- `uint32_t`'s largest value.
abbrev pub max_seq : ℕ
max_seq = 4294967295

pub record Link : Type 0 where
  pub ephemeral : ℕ
  pub master : List ℕ
  pub traffic : List ℕ
  pub tx_seq : ℕ
  pub rx_seq : ℕ
  pub server : Bool

abbrev pub no_link : Link
no_link = record {
  ephemeral = 0;
  master = replicate 32 0;
  traffic = replicate 32 0;
  tx_seq = 0;
  rx_seq = 0;
  server = false;
}

-- The PSA functions by their arguments: the key, the direction, the sequence number and the bytes;
-- nothing where the status is not PSA_SUCCESS.
pub record Psa : Type 0 where
  pub hash : List ℕ → Option (List ℕ)
  pub encrypt : List ℕ → ℕ → ℕ → List ℕ → Option (List ℕ)
  pub decrypt : List ℕ → ℕ → ℕ → List ℕ → Option (List ℕ)

-- The four bytes of a sequence number, and the number that four bytes hold.
unfoldable pub seq_bytes : ℕ → List ℕ
seq_bytes seq = seq / 2 ^ 24 % 256 ∷ seq / 2 ^ 16 % 256 ∷ seq / 2 ^ 8 % 256 ∷ seq % 256 ∷ []

unfoldable pub seq_of : ℕ → ℕ → ℕ → ℕ → ℕ
seq_of a b c d = a * 2 ^ 24 + b * 2 ^ 16 + c * 2 ^ 8 + d

abbrev pub tx_direction : Link → ℕ
tx_direction s = if s.server then 1 else 2

abbrev pub rx_direction : Link → ℕ
rx_direction s = if s.server then 2 else 1

abbrev pub traffic_or : Link → Option (List ℕ) → Link × Bool
traffic_or s none = (record s { tx_seq = 0; rx_seq = 0 }, false)
traffic_or s (some digest) = (record s { traffic = digest; tx_seq = 0; rx_seq = 0 }, true)

-- The result says whether it is ESP_OK; on a failure the key is left as it was.
unfoldable pub cl_start : Psa → List ℕ → List ℕ → Bool → Link → Link × Bool
cl_start psa challenge client_nonce server s =
    traffic_or (record s { server = server }) (psa.hash (s.master ++ challenge ++ client_nonce))

abbrev pub sealed_or : ℕ → Link → Option (List ℕ) → Link × Option (List ℕ)
sealed_or seq s none = (s, none)
sealed_or seq s (some bytes) = (record s { tx_seq = seq }, some (seq_bytes seq ++ bytes))

-- The new session, and the frame where the result is ESP_OK.
unfoldable pub cl_seal : Psa → List ℕ → Link → Link × Option (List ℕ)
unfolding seq_bytes
cl_seal psa plain s =
    if not (ltb (length plain) max_plain) || s.tx_seq == max_seq
    then (s, none)
    else let seq = s.tx_seq + 1 in
      sealed_or seq s (psa.encrypt s.traffic (tx_direction s) seq plain)

abbrev pub opened_or : ℕ → Link → Option (List ℕ) → Link × Option (List ℕ)
opened_or seq s none = (s, none)
opened_or seq s (some plain) = (record s { rx_seq = seq }, some plain)

abbrev pub open_seq : Psa → ℕ → List ℕ → Link → Link × Option (List ℕ)
open_seq psa seq bytes s =
    if seq == 0 || leb seq s.rx_seq
    then (s, none)
    else opened_or seq s (psa.decrypt s.traffic (rx_direction s) seq bytes)

-- The new session, and the text where the result is ESP_OK.
unfoldable pub cl_open : Psa → List ℕ → Link → Link × Option (List ℕ)
unfolding seq_of
cl_open psa (a ∷ b ∷ c ∷ d ∷ bytes) s =
    if ltb (4 + length bytes) 20 || ltb (max_plain + 24) (4 + length bytes)
    then (s, none)
    else open_seq psa (seq_of a b c d) bytes s
cl_open psa _ s = (s, none)

abbrev pub cl_clear : Link → Link
cl_clear s = no_link
