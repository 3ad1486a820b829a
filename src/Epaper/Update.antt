-- ===== src/Epaper/Update.antt =====
-- main/ota_authorization_policy.h and main/power_policy.h, with the offer and the bundle of
-- components/ble_client/include/ble_client.h. A text is the list of its characters.
use keg_scale_espdisplay.Prelude.{
  ℕ, Bool, true, false, not, ◌&&◌, ◌||◌, Option, none, some, List, ltb, ◌==◌, if◌then◌else◌,
  same_text, is_empty,
}

pub record UpdateOffer : Type 0 where
  pub valid : Bool
  pub scale_wifi_connected : Bool
  pub size_bytes : ℕ
  pub hardware : List ℕ
  pub version : List ℕ
  pub sha256 : List ℕ

pub record UpdateBundle : Type 0 where
  pub size_bytes : ℕ
  pub ssid : List ℕ
  pub password : List ℕ
  pub hardware : List ℕ
  pub version : List ℕ
  pub url : List ℕ
  pub sha256 : List ℕ

pub data Authorization : Type 0 where
  not_approved : Authorization
  metadata_mismatch : Authorization
  approved : Authorization

-- `display_ota_authorization_evaluate`: whether the fetch succeeded, and the two pointers, absent
-- where they are NULL.
abbrev pub evaluate : Bool → Option UpdateOffer → Option UpdateBundle → Authorization
evaluate false offer bundle = not_approved
evaluate true none bundle = metadata_mismatch
evaluate true (some offer) none = metadata_mismatch
evaluate true (some offer) (some bundle) =
    if not offer.valid
      || offer.size_bytes == 0
      || is_empty offer.hardware
      || is_empty offer.version
      || is_empty offer.sha256
    then metadata_mismatch
    else if not (same_text offer.hardware bundle.hardware)
        || not (same_text offer.version bundle.version)
        || not (same_text offer.sha256 bundle.sha256)
        || not (offer.size_bytes == bundle.size_bytes)
    then metadata_mismatch
    else approved

-- `power_next_check_seconds`.
unfoldable pub next_check_seconds : Bool → ℕ → ℕ → ℕ → ℕ
next_check_seconds frequent failures frequent_seconds safety_seconds =
    if failures == 1
    then 300
    else if failures == 2
    then 900
    else if ltb 2 failures
    then safety_seconds
    else if frequent
    then frequent_seconds
    else safety_seconds

-- `power_retry_touch`.
unfoldable pub retry_touch : ℕ → Bool → Bool → Bool → Bool
retry_touch phase calibrated stable forced = phase == 1 && calibrated && not stable && not forced
