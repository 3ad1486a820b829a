-- ===== src/Touchscreen/Agreement.antt =====
-- touchscreen/components/controller_link/controller_link.c: the key pair of a pairing and the key
-- that two ends agree on. The PSA key store and SHA-256 are arguments.
use keg_scale_espdisplay.Prelude.{
  ℕ, ◌+◌, ◌-◌, Bool, not, ◌&&◌, Option, none, some, List, [], ◌++◌, map, leb, ◌==◌, if◌then◌else◌,
  length, take,
}
use keg_scale_espdisplay.Esp.{Err, fail, invalid_arg}
use keg_scale_espdisplay.Touchscreen.Hex.{cl_hex, cl_unhex}
use keg_scale_espdisplay.Touchscreen.Link.{Link, Psa}
pub mod Laws
pub mod Examples

-- The key store: nothing where the status is not PSA_SUCCESS. A generated key has an identifier
-- that is not 0, and `export` gives its public key.
pub record KeyStore : Type 0 where
  pub init : Bool
  pub generate : Option ℕ
  pub export : ℕ → Option (List ℕ)
  pub agree : ℕ → List ℕ → Option (List ℕ)

abbrev public_or : Link → ℕ → Option (List ℕ) → Link × Option (List ℕ)
public_or s key none = (record s { ephemeral = 0 }, none)
public_or s key (some bytes) =
    if length bytes == 65
    then (record s { ephemeral = key }, some (cl_hex bytes))
    else (record s { ephemeral = 0 }, none)

abbrev generated_or : KeyStore → Link → Option ℕ → Link × Option (List ℕ)
generated_or k s none = (record s { ephemeral = 0 }, none)
generated_or k s (some key) = public_or s key (k.export key)

-- The session, and the public key's text where the result is ESP_OK.
unfoldable pub cl_keypair : KeyStore → Link → Link × Option (List ℕ)
cl_keypair k s = if not k.init then (s, none) else generated_or k s k.generate

-- A letter from `a` to `f` as the capital.
unfoldable pub capital : ℕ → ℕ
capital c = if leb 97 c && leb c 102 then c - 97 + 65 else c

-- The six characters that the user compares.
unfoldable pub code_of : List ℕ → List ℕ
unfolding capital
code_of digest = map capital (cl_hex (take 3 digest))

abbrev pub coded : Link → Option (List ℕ) → Link × (Option Err × List ℕ)
coded s none = (s, (some fail, []))
coded s (some digest) = (s, (none, code_of digest))

abbrev pub mastered : Psa → Link → Option (List ℕ) → Link × (Option Err × List ℕ)
mastered psa s none = (s, (some fail, []))
mastered psa s (some master) = coded (record s { master = master }) (psa.hash master)

-- The result of `psa_raw_key_agreement`, hashed with the two public keys.
abbrev pub agreed : Psa → Link → List ℕ → List ℕ → Option (List ℕ) → Link × (Option Err × List ℕ)
agreed psa s server client none = (s, (some fail, []))
agreed psa s server client (some shared) =
    if length shared == 32
    then mastered psa s (psa.hash (shared ++ server ++ client))
    else (s, (some fail, []))

abbrev pub agree_with :
    Psa
    → KeyStore
    → Link
    → Option (List ℕ)
    → Option (List ℕ)
    → Option (List ℕ)
    → Link × (Option Err × List ℕ)
agree_with psa k s none server client = (record s { ephemeral = 0 }, (some invalid_arg, []))
agree_with psa k s (some p) none client = (record s { ephemeral = 0 }, (some invalid_arg, []))
agree_with psa k s (some p) (some v) none = (record s { ephemeral = 0 }, (some invalid_arg, []))
agree_with psa k s (some p) (some v) (some c) =
    agreed psa (record s { ephemeral = 0 }) v c (k.agree s.ephemeral p)

-- The session, the result, and the code, which is there where the result is ESP_OK.
unfoldable pub cl_agree :
    Psa → KeyStore → List ℕ → List ℕ → List ℕ → Link → Link × (Option Err × List ℕ)
unfolding code_of cl_unhex
cl_agree psa k peer server client s =
    agree_with psa k s (cl_unhex peer 65) (cl_unhex server 65) (cl_unhex client 65)
