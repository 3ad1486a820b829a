-- ===== src/Touchscreen/Ota.antt =====
-- touchscreen/main/touchscreen_ota.cpp: the manifest, the decision, and the image. What the HTTP
-- client, the partition and the hash return is an argument, as are cJSON's parser, SHA-256 and the
-- reading of the image's header.
use keg_scale_espdisplay.Prelude.{
  ℕ, zero, suc, ◌+◌, ◌-◌, Bool, true, false, not, ◌&&◌, Option, none, some, List, [], ◌∷◌, ◌++◌,
  ltb, leb, ◌==◌, if◌then◌else◌, length, take, same_text, ℤ, pos, negsuc, has_prefix,
}
use keg_scale_espdisplay.Esp.{Err, no_mem, invalid_size, not_found, invalid_response}
use keg_scale_espdisplay.Touchscreen.Hex.{cl_unhex}
pub mod Version
pub mod Image
pub mod Matching
pub mod Offers
pub mod Gates
pub mod Examples
use Version.{parse_version, compare_versions}

-- A number of the manifest: `fraction n` lies between n and n + 1, `huge` above every size.
pub data Number : Type 0 where
  negative : Number
  whole : ℕ → Number
  fraction : ℕ → Number
  huge : Number

-- What `touchscreen_ota` reads of the parsed manifest: a text that is absent or is no text is
-- empty, and a number that is absent or is no number is missing.
pub record Manifest : Type 0 where
  pub size : Option Number
  pub version : List ℕ
  pub hardware : List ℕ
  pub target : List ℕ
  pub channel : List ℕ
  pub url : List ℕ
  pub sha256 : List ℕ
  pub protocol : Option Number
  pub minimum : Option Number
  pub maximum : Option Number

-- `feed_root`
abbrev feed_root : List ℕ
feed_root =
    104 ∷ 116 ∷ 116 ∷ 112 ∷ 115 ∷ 58 ∷ 47 ∷ 47 ∷ 114 ∷ 97 ∷ 119 ∷ 46 ∷ 103 ∷ 105 ∷ 116 ∷ 104 ∷ 117
    ∷ 98 ∷ 117 ∷ 115 ∷ 101 ∷ 114 ∷ 99 ∷ 111 ∷ 110 ∷ 116 ∷ 101 ∷ 110 ∷ 116 ∷ 46 ∷ 99 ∷ 111 ∷ 109 ∷ 47
    ∷ 107 ∷ 104 ∷ 114 ∷ 105 ∷ 115 ∷ 112 ∷ 101 ∷ 114 ∷ 114 ∷ 121 ∷ 47 ∷ 75 ∷ 101 ∷ 103 ∷ 83 ∷ 99 ∷ 97
    ∷ 108 ∷ 101 ∷ 70 ∷ 105 ∷ 114 ∷ 109 ∷ 119 ∷ 97 ∷ 114 ∷ 101 ∷ 47 ∷ 109 ∷ 97 ∷ 105 ∷ 110 ∷ 47 ∷ 116
    ∷ 111 ∷ 117 ∷ 99 ∷ 104 ∷ 115 ∷ 99 ∷ 114 ∷ 101 ∷ 101 ∷ 110 ∷ []

-- "waveshare_esp32_s3_touch_lcd_4b"
abbrev pub hardware_name : List ℕ
hardware_name =
    119 ∷ 97 ∷ 118 ∷ 101 ∷ 115 ∷ 104 ∷ 97 ∷ 114 ∷ 101 ∷ 95 ∷ 101 ∷ 115 ∷ 112 ∷ 51 ∷ 50 ∷ 95 ∷ 115
    ∷ 51 ∷ 95 ∷ 116 ∷ 111 ∷ 117 ∷ 99 ∷ 104 ∷ 95 ∷ 108 ∷ 99 ∷ 100 ∷ 95 ∷ 52 ∷ 98 ∷ []

-- "esp32s3"
abbrev pub target_name : List ℕ
target_name = 101 ∷ 115 ∷ 112 ∷ 51 ∷ 50 ∷ 115 ∷ 51 ∷ []

-- "/esp32s3/"
abbrev base_end : List ℕ
base_end = 47 ∷ 101 ∷ 115 ∷ 112 ∷ 51 ∷ 50 ∷ 115 ∷ 51 ∷ 47 ∷ []

-- The length of the Contents URL without the channel.
abbrev pub url_fixed : ℕ
url_fixed = 109

abbrev pub url_size : ℕ
url_size = 360

-- `base`, an array of 300 characters.
unfoldable pub base : List ℕ → List ℕ
base channel = take 299 (feed_root ++ 47 ∷ (channel ++ base_end))

abbrev pub manifest_size : ℕ
manifest_size = 4096

-- The loop over the reads of the manifest, each of which gives what it may at most.
abbrev pub read_manifest : List (List ℕ) → List ℕ → List ℕ
read_manifest [] used = used
read_manifest ([] ∷ reads) used = used
read_manifest ((c ∷ bytes) ∷ reads) used =
    let rest = read_manifest reads (used ++ take (manifest_size - 1 - length used) (c ∷ bytes)) in
    if ltb (length used) (manifest_size - 1) then rest else used

-- The size where the manifest's is positive, at most the partition's, and whole.
abbrev pub size_within : ℕ → Option Number → Option ℕ
size_within partition (some (whole n)) = if ltb 0 n && leb n partition then some n else none
size_within partition (some (fraction n)) = none
size_within partition (some negative) = none
size_within partition (some huge) = none
size_within partition none = none

abbrev is_one : Option Number → Bool
is_one (some (whole n)) = n == 1
is_one (some (fraction n)) = false
is_one (some negative) = false
is_one (some huge) = false
is_one none = false

abbrev at_most_one : Option Number → Bool
at_most_one (some (whole n)) = leb n 1
at_most_one (some (fraction n)) = n == 0
at_most_one (some negative) = true
at_most_one (some huge) = false
at_most_one none = false

abbrev at_least_one : Option Number → Bool
at_least_one (some (whole n)) = leb 1 n
at_least_one (some (fraction n)) = leb 1 n
at_least_one (some negative) = false
at_least_one (some huge) = true
at_least_one none = false

-- The tests of `valid` on the texts and the protocol.
unfoldable pub identity_valid : List ℕ → Manifest → Bool
unfolding base
identity_valid channel m =
    same_text m.hardware hardware_name
    && same_text m.target target_name
    && same_text m.channel channel
    && has_prefix (base channel) m.url
    && ltb (length m.url) url_size
    && is_one m.protocol
    && at_most_one m.minimum
    && at_least_one m.maximum

-- A manifest that is valid, with the numbers that the rest uses.
pub record Offer : Type 0 where
  pub size : ℕ
  pub version : List ℕ
  pub expected : List ℕ

abbrev pub offer_of : Bool → List ℕ → Option ℕ → Option (List ℕ) → Option Offer
offer_of false version size digest = none
offer_of true version none digest = none
offer_of true version (some size) none = none
offer_of true version (some size) (some digest) =
    some (record { size = size; version = take 31 version; expected = digest })

-- `valid`, for the size of the partition, which is absent where there is none.
abbrev pub valid_offer : List ℕ → Option ℕ → Manifest → Option Offer
valid_offer channel none m = none
valid_offer channel (some partition) m =
    offer_of (identity_valid channel m) m.version (size_within partition m.size)
      (cl_unhex m.sha256 32)

-- What the device and the network give before the image is opened.
pub record Feed : Type 0 where
  pub opened : Bool
  pub buffer : Bool
  pub reads : List (List ℕ)
  pub complete : Bool
  pub partition : Option ℕ

abbrev pub offer_or : Option Offer → Offer × Option Err
offer_or none = (record { size = 0; version = []; expected = [] }, some invalid_response)
offer_or (some o) = (o, none)

abbrev pub parsed_or : List ℕ → Option ℕ → Option Manifest → Offer × Option Err
parsed_or channel partition none =
    (record { size = 0; version = []; expected = [] }, some invalid_response)
parsed_or channel partition (some m) = offer_or (valid_offer channel partition m)

-- From the URL of the manifest to its validation.
unfoldable pub read_offer : (List ℕ → Option Manifest) → List ℕ → Feed → Offer × Option Err
unfolding identity_valid cl_unhex
read_offer parse channel f =
    let no_offer : Offer = record { size = 0; version = []; expected = [] } in
    if leb url_size (url_fixed + length channel)
    then (no_offer, some invalid_size)
    else if not f.opened
    then (no_offer, some not_found)
    else if not f.buffer
    then (no_offer, some no_mem)
    else if not f.complete
    then (no_offer, some invalid_response)
    else parsed_or channel f.partition (parse (read_manifest f.reads []))

-- The calls of the screen.
pub data UiUpdate : Type 0 where
  status : List ℕ → List ℕ → Bool → Bool → UiUpdate
  installing : List ℕ → UiUpdate
  progress : ℕ → UiUpdate
  completed : List ℕ → UiUpdate

pub data Decision : Type 0 where
  invalid downgrade current newer : Decision

abbrev decision_of : ℤ → Decision
decision_of (negsuc n) = downgrade
decision_of (pos zero) = current
decision_of (pos (suc n)) = newer

abbrev pub decide_parsed : Option (ℕ × ℕ × ℕ) → Option (ℕ × ℕ × ℕ) → ℤ → Decision
decide_parsed none latest order = invalid
decide_parsed (some running) none order = invalid
decide_parsed (some running) (some latest) order = decision_of order

-- The version of the running firmware and that of the feed.
unfoldable pub decide : List ℕ → List ℕ → Decision
unfolding compare_versions
decide running latest =
    decide_parsed (parse_version running) (parse_version latest) (compare_versions latest running)
