-- ===== src/Epaper/Download/Authorized.antt =====
-- ota_authorization_policy.h and display_ota.c together: the image that boots is the one offered.
use keg_scale_espdisplay.Prelude.{
  ℕ, ◌≤◌, ◌<◌, ◌≡◌, sym, ◌∙◌, subst, ◌↔◌, Bool, true, false, Option, some, List, arith, length,
  same_text, same_text-eq, is_empty,
}
use keg_scale_espdisplay.Esp.{Err}
use keg_scale_espdisplay.Epaper.Update.{UpdateOffer, UpdateBundle, approved, evaluate}
use keg_scale_espdisplay.Epaper.Download.{max_u32, sha256_matches, Flash, Try, install}
use keg_scale_espdisplay.Epaper.Download.Staging.{Accepted}
use keg_scale_espdisplay.Epaper.Download.Retries.{Updated, stays, replaced, install-Updated}

-- An update is approved exactly where the bundle was fetched for a valid offer, none of whose
-- values is empty, and agrees with it.
pub evaluate_iff :
    (fetched : Bool) (offer : UpdateOffer) (bundle : UpdateBundle)
    → (evaluate fetched (some offer) (some bundle) ≡ approved) ↔ (
        (fetched ≡ true)
        × (offer.valid ≡ true)
        × (0 < offer.size_bytes)
        × (is_empty offer.hardware ≡ false)
        × (is_empty offer.version ≡ false)
        × (is_empty offer.sha256 ≡ false)
        × (same_text offer.hardware bundle.hardware ≡ true)
        × (same_text offer.version bundle.version ≡ true)
        × (same_text offer.sha256 bundle.sha256 ≡ true)
        × (offer.size_bytes ≡ bundle.size_bytes))
evaluate_iff false offer bundle = ground arith
evaluate_iff true offer bundle = ground arith

Updated-Accepted :
    (sha : List ℕ → List ℕ) (b : UpdateBundle) (r : Flash × Option Err)
    → Updated sha b r
    → r.0.boots ≡ true
    → Accepted sha b r.0.image
Updated-Accepted sha b r (stays image e) h = absurd (ground (arith, h))
Updated-Accepted sha b r (replaced image a) h = a

-- Of an update that was approved, with a size that fits in 32 bits, the image that boots has the
-- size and the SHA-256 of the offer that was shown before the protected bundle was fetched.
pub install-Offered :
    (sha : List ℕ → List ℕ) (offer : UpdateOffer) (b : UpdateBundle) (connected : Option Err)
    (tries : ℕ → Try)
    → evaluate true (some offer) (some b) ≡ approved
    → b.size_bytes ≤ max_u32
    → (install sha connected tries b).1.0.boots ≡ true
    → let image = (install sha connected tries b).1.0.image in
      (length image ≡ offer.size_bytes) × (sha256_matches (sha image) offer.sha256 ≡ true)
install-Offered sha offer b connected tries ok small boots =
    let r = (install sha connected tries b).1 in
    let (size, matched) =
      Updated-Accepted sha b r (install-Updated sha b connected tries small) boots in
    let (f, v, z, h₁, h₂, h₃, hardware, version, digest, same_size) =
      (evaluate_iff true offer b).0 ok in
    (
      size ∙ sym same_size,
      subst (λ text. sha256_matches (sha r.0.image) text ≡ true)
          (sym (same_text-eq offer.sha256 b.sha256 digest)) matched,
    )
