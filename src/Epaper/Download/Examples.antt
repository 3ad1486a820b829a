-- ===== src/Epaper/Download/Examples.antt =====
-- An installation run on concrete attempts. SHA-256 is replaced by 32 bytes that hold the length.
use keg_scale_espdisplay.Prelude.{
  ℕ, zero, suc, ◌-◌, ◌%◌, ◌≡◌, refl, ◌↔◌, true, false, Option, none, some, List, [], ◌∷◌, ◌++◌, map,
  arith, length, replicate, hex,
}
use keg_scale_espdisplay.Esp.{Err, invalid_arg, timeout, invalid_response, is_ok}
use keg_scale_espdisplay.Epaper.Update.{
  UpdateOffer, UpdateBundle, metadata_mismatch, evaluate, next_check_seconds,
}
use keg_scale_espdisplay.Epaper.Download.{
  hardware_id, https, sha256_matches, end_of_body, got, Attempt, no_image, download_and_stage_once,
  Try, installable, install,
}
use keg_scale_espdisplay.Epaper.Download.Authorized.{install-Offered}
use keg_scale_espdisplay.Epaper.Download.Retries.{
  Updated, SomeFrom, Succeeds, install-Updated, install_iff,
}

abbrev length_digest : List ℕ → List ℕ
length_digest bytes = replicate 32 (length bytes % 256)

abbrev three_bytes : UpdateBundle
three_bytes = record {
  size_bytes = 3;
  ssid = 97 ∷ [];
  password = 98 ∷ 99 ∷ [];
  hardware = hardware_id;
  version = 49 ∷ [];
  url = https ++ 100 ∷ [];
  sha256 = hex (replicate 32 3);
}

abbrev good_attempt : Attempt
good_attempt = record {
  client = true;
  opened = none;
  headers_ok = true;
  status = 200;
  partition = true;
  begun = none;
  hash_setup = true;
  buffer = true;
  chunks = got 7 (8 ∷ []) true none ∷ got 9 [] true none ∷ end_of_body ∷ [];
  hash_finished = true;
  ended = none;
  boot_set = none;
}

-- A round without Wi-Fi, one whose body is cut short, and one that works.
abbrev third_works : ℕ → Try
third_works zero = record { connected = false; reconnected = false; attempt = good_attempt }
third_works (suc zero) = record {
  connected = true;
  reconnected = false;
  attempt = record good_attempt { chunks = got 7 [] true none ∷ [] };
}
third_works (suc (suc n)) = record { connected = true; reconnected = true; attempt = good_attempt }

install-third : install length_digest none third_works three_bytes ≡ (
  record three_bytes { password = []; ssid = [] },
  (record { image = 7 ∷ 8 ∷ 9 ∷ []; boots = true }, none),
)
unfolding install keg_scale_espdisplay.Prelude.hex_digit
install-third = refl

install-no_wifi :
    (install length_digest (some timeout) third_works three_bytes).1 ≡ (no_image, some timeout)
unfolding install
install-no_wifi = refl

install-other_hardware :
    let b = record three_bytes { hardware = 120 ∷ [] } in
    install length_digest none third_works b ≡ (b, (no_image, some invalid_arg))
unfolding install
install-other_hardware = refl

-- An attempt whose server answers 404.
once-missing :
    download_and_stage_once length_digest three_bytes (record good_attempt { status = 404 })
    ≡ (no_image, some invalid_response)
unfolding download_and_stage_once
once-missing = refl

sha256_matches-upper_case :
    sha256_matches (replicate 32 171) (map (λ c. c - 32) (hex (replicate 32 171))) ≡ true
unfolding sha256_matches keg_scale_espdisplay.Prelude.hex_digit
sha256_matches-upper_case = refl

install-Updated_example :
    Updated length_digest three_bytes (install length_digest none third_works three_bytes).1
install-Updated_example = install-Updated length_digest three_bytes none third_works (omega arith)

install_iff_example : (is_ok (install length_digest none third_works three_bytes).1.1 ≡ true) ↔ (
    (installable three_bytes ≡ true)
    × ((◌≡◌ {A = Option Err} none none)
        × SomeFrom (λ j. Succeeds length_digest three_bytes (third_works j)) 0 3))
install_iff_example = install_iff length_digest three_bytes none third_works (omega arith)

abbrev three_offered : UpdateOffer
three_offered = record {
  valid = true;
  scale_wifi_connected = true;
  size_bytes = 3;
  hardware = hardware_id;
  version = 49 ∷ [];
  sha256 = hex (replicate 32 3);
}

install-Offered_example :
    let image = (install length_digest none third_works three_bytes).1.0.image in
    (length image ≡ three_offered.size_bytes)
    × (sha256_matches (length_digest image) three_offered.sha256 ≡ true)
unfolding keg_scale_espdisplay.Prelude.hex_digit install
install-Offered_example =
    install-Offered length_digest three_offered three_bytes none third_works refl (omega arith) refl

-- A bundle for another version is no approval.
evaluate-other_version :
    evaluate true (some three_offered) (some (record three_bytes { version = 50 ∷ [] }))
    ≡ metadata_mismatch
evaluate-other_version = refl

next_check-failures : next_check_seconds false 2 60 3600 ≡ 900
unfolding next_check_seconds
next_check-failures = refl
