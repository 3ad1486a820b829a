-- ===== src/Epaper/Download.antt =====
-- components/display_ota/display_ota.c: the download of a firmware image, its checks, and the
-- retries. What the HTTP client, the OTA partition and the hash return in an attempt is an
-- argument; `sha` is SHA-256, and the hash operation holds the bytes that it was given.
use keg_scale_espdisplay.Prelude.{
  ℕ, zero, suc, ◌+◌, ◌-◌, Bool, false, not, ◌&&◌, ◌||◌, Option, none, some, List, [], ◌∷◌, ◌++◌,
  map, ltb, ◌==◌, if◌then◌else◌, length, same_text, to_lower, hex, has_prefix, is_empty,
}
use keg_scale_espdisplay.Esp.{
  Err, fail, no_mem, invalid_arg, invalid_size, not_found, timeout, invalid_response, invalid_crc,
  is_ok, ◌then_if_ok◌,
}
use keg_scale_espdisplay.Epaper.Update.{UpdateBundle}
pub mod Staging
pub mod Retries
pub mod Authorized
pub mod Examples

abbrev pub http_connect_attempts : ℕ
http_connect_attempts = 3

abbrev pub max_u32 : ℕ
max_u32 = 4294967295

-- "lilygo_t5_v2_3_1"
abbrev pub hardware_id : List ℕ
hardware_id =
    108 ∷ 105 ∷ 108 ∷ 121 ∷ 103 ∷ 111 ∷ 95 ∷ 116 ∷ 53 ∷ 95 ∷ 118 ∷ 50 ∷ 95 ∷ 51 ∷ 95 ∷ 49 ∷ []

-- "https://"
abbrev pub https : List ℕ
https = 104 ∷ 116 ∷ 116 ∷ 112 ∷ 115 ∷ 58 ∷ 47 ∷ 47 ∷ []

unfoldable pub sha256_matches : List ℕ → List ℕ → Bool
unfolding to_lower
sha256_matches digest expected =
    length expected == 64 && same_text (map to_lower expected) (hex digest)

-- What `esp_http_client_read` gives in a round: an error, the end of the body, or bytes, at least
-- one, with the results of hashing and of writing them.
pub data Chunk : Type 0 where
  read_error : Chunk
  end_of_body : Chunk
  got : ℕ → List ℕ → Bool → Option Err → Chunk

-- What an attempt meets, in order. The list of chunks may also end without `end_of_body`.
pub record Attempt : Type 0 where
  pub client : Bool
  pub opened : Option Err
  pub headers_ok : Bool
  pub status : ℕ
  pub partition : Bool
  pub begun : Option Err
  pub hash_setup : Bool
  pub buffer : Bool
  pub chunks : List Chunk
  pub hash_finished : Bool
  pub ended : Option Err
  pub boot_set : Option Err

-- The counter, the bytes that the hash has, and those that the partition has.
pub record Progress : Type 0 where
  pub total : ℕ
  pub hashed : List ℕ
  pub stored : List ℕ

abbrev pub no_progress : Progress
no_progress = record { total = 0; hashed = []; stored = [] }

-- The rest of a round that has read `bytes`, with the results of the hash and the write.
unfoldable pub receive_bytes : List ℕ → Bool → Option Err → Progress → Progress × Option Err
receive_bytes bytes hash_ok written p =
    if ltb (max_u32 - p.total) (length bytes)
    then (p, some invalid_size)
    else let p₁ = record p { total = p.total + length bytes } in
      let p₂ = record p₁ { hashed = p.hashed ++ bytes } in
      let p₃ = if is_ok written then record p₂ { stored = p.stored ++ bytes } else p₂ in
      if not hash_ok then (p₁, some fail) else (p₃, written)

unfoldable pub receive : List Chunk → Progress → Progress × Option Err
unfolding receive_bytes
receive [] p = (p, none)
receive (read_error ∷ rs) p = (p, some fail)
receive (end_of_body ∷ rs) p = (p, none)
receive (got b bytes hash_ok written ∷ rs) p =
    let (q, e) = receive_bytes (b ∷ bytes) hash_ok written p in
    let rest = receive rs q in if is_ok e then rest else (q, e)

-- From `esp_ota_get_next_update_partition` to `psa_hash_setup`.
unfoldable pub prepare : Attempt → Option Err
prepare a =
    (if not a.partition then some not_found else a.begun)
    then_if_ok (if a.hash_setup then none else some fail)

-- The comparison with the bundle.
unfoldable pub verify : (List ℕ → List ℕ) → UpdateBundle → Progress → Option Err
unfolding sha256_matches
verify sha bundle p =
    if not (p.total == bundle.size_bytes) || not (sha256_matches (sha p.hashed) bundle.sha256)
    then some invalid_crc
    else none

-- The flash after an attempt: what the attempt wrote, and whether that is the image to boot.
pub record Flash : Type 0 where
  pub image : List ℕ
  pub boots : Bool

abbrev pub no_image : Flash
no_image = record { image = []; boots = false }

-- The end of an attempt, from `psa_hash_finish` on.
unfoldable pub finish :
    (List ℕ → List ℕ) → UpdateBundle → Attempt → Progress × Option Err → Flash × Option Err
unfolding verify
finish sha bundle a (p, e) =
    let checked =
      e
      then_if_ok (if a.hash_finished then none else some fail)
      then_if_ok verify sha bundle p
      then_if_ok a.ended
      then_if_ok a.boot_set in
    (record { image = p.stored; boots = is_ok checked }, checked)

unfoldable pub download_and_stage_once :
    (List ℕ → List ℕ) → UpdateBundle → Attempt → Flash × Option Err
unfolding prepare receive finish
download_and_stage_once sha bundle a =
    if not a.client
    then (no_image, some no_mem)
    else elim (a.opened then_if_ok (if a.headers_ok then none else some fail)) [
      | some e ↦ (no_image, some e)
      | none ↦
          if not (a.status == 200)
          then (no_image, some invalid_response)
          else if not a.buffer
          then (no_image, some no_mem)
          else elim (prepare a) [
            | some e ↦ (no_image, some e)
            | none ↦ finish sha bundle a (receive a.chunks no_progress)
          ]
    ]

-- What one round of the retries meets: whether the Wi-Fi is or gets ready, and the attempt.
pub record Try : Type 0 where
  pub connected : Bool
  pub reconnected : Bool
  pub attempt : Attempt

unfoldable pub wait_for_wifi_ready : Try → Option Err
wait_for_wifi_ready t = if t.connected then none else if t.reconnected then none else some timeout

-- The body of the loop over the attempts.
unfoldable pub try_once : (List ℕ → List ℕ) → UpdateBundle → Try → Flash → Flash × Option Err
unfolding wait_for_wifi_ready download_and_stage_once
try_once sha bundle t flash = elim (wait_for_wifi_ready t) [
  | some e ↦ (flash, some e)
  | none ↦ download_and_stage_once sha bundle t.attempt
]

-- The loop over the attempts that are left, with the flash and the result so far.
abbrev pub attempts_from :
    (List ℕ → List ℕ) → UpdateBundle → ℕ → (ℕ → Try) → ℕ → Flash × Option Err → Flash × Option Err
attempts_from sha bundle zero tries i (flash, e) = (flash, e)
attempts_from sha bundle (suc n) tries i (flash, e) =
    let r = try_once sha bundle (tries i) flash in
    let rest = attempts_from sha bundle n tries (i + 1) r in if is_ok r.1 then r else rest

abbrev pub download_and_stage : (List ℕ → List ℕ) → UpdateBundle → (ℕ → Try) → Flash × Option Err
download_and_stage sha bundle tries =
    attempts_from sha bundle http_connect_attempts tries 0 (no_image, some fail)

-- The guard of `display_ota_install`.
unfoldable pub installable : UpdateBundle → Bool
installable b =
    not (is_empty b.ssid)
    && same_text b.hardware hardware_id
    && not (is_empty b.version)
    && not (b.size_bytes == 0)
    && has_prefix https b.url
    && length b.sha256 == 64

-- The download, where `connect_wifi` succeeded.
abbrev pub download_if :
    (List ℕ → List ℕ) → Option Err → (ℕ → Try) → UpdateBundle → Flash × Option Err
download_if sha none tries b = download_and_stage sha b tries
download_if sha (some e) tries b = (no_image, some e)

-- `display_ota_install`, with the result of `connect_wifi`: the bundle, whose credentials are
-- cleared at the end, the flash and the result.
unfoldable pub install :
    (List ℕ → List ℕ) → Option Err → (ℕ → Try) → UpdateBundle → UpdateBundle × (Flash × Option Err)
unfolding installable try_once
install sha connected tries b =
    if not (installable b)
    then (b, (no_image, some invalid_arg))
    else (record b { password = []; ssid = [] }, download_if sha connected tries b)
