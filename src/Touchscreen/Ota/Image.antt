-- ===== src/Touchscreen/Ota/Image.antt =====
-- touchscreen_ota.cpp, `touchscreen_ota`: the download of the image and the whole function.
use keg_scale_espdisplay.Prelude.{
  ℕ, ◌+◌, ◌-◌, ◌*◌, ◌/◌, ◌%◌, ◌^◌, Bool, true, false, not, ◌&&◌, ◌||◌, Option, none, some, List, [],
  ◌∷◌, ◌++◌, ltb, ◌==◌, if◌then◌else◌, length, take, same_text,
}
use keg_scale_espdisplay.Esp.{
  Err, fail, no_mem, invalid_size, not_found, invalid_response, invalid_crc, invalid_version, is_ok,
  ◌then_if_ok◌,
}
use keg_scale_espdisplay.Touchscreen.Ota.{
  Manifest, Offer, Feed, read_offer, UiUpdate, status, installing, progress, completed, Decision,
  invalid, downgrade, current, newer, decide,
}

-- The description in the image's header: whether its magic word is right, and the two texts.
pub record AppDesc : Type 0 where
  pub magic : Bool
  pub project_name : List ℕ
  pub version : List ℕ

-- The library's parts: cJSON, the length of the header and how to read the description in it, and
-- SHA-256.
pub record Platform : Type 0 where
  pub parse : List ℕ → Option Manifest
  pub header_size : ℕ
  pub desc : List ℕ → AppDesc
  pub sha256 : List ℕ → List ℕ

-- "keg_scale_touchscreen"
abbrev pub project : List ℕ
project =
    107 ∷ 101 ∷ 103 ∷ 95 ∷ 115 ∷ 99 ∷ 97 ∷ 108 ∷ 101 ∷ 95 ∷ 116 ∷ 111 ∷ 117 ∷ 99 ∷ 104 ∷ 115 ∷ 99
    ∷ 114 ∷ 101 ∷ 101 ∷ 110 ∷ []

-- What a read gives: nothing (an error, or no byte), or bytes, at least one, with the results of
-- hashing and of writing them.
pub data Read : Type 0 where
  no_data : Read
  got : ℕ → List ℕ → Bool → Option Err → Read

pub record Download : Type 0 where
  pub total : ℕ
  pub header : List ℕ
  pub identity_checked : Bool
  pub hashed : List ℕ
  pub stored : List ℕ
  pub shown : List UiUpdate

abbrev pub no_download : Download
no_download = record {
  total = 0;
  header = [];
  identity_checked = false;
  hashed = [];
  stored = [];
  shown = [];
}

unfoldable pub identity_matches : Platform → Offer → List ℕ → Bool
identity_matches pf o header =
    let desc = pf.desc header in
    desc.magic && same_text desc.project_name project && same_text desc.version o.version

-- The part of a round that collects the header and checks it.
unfoldable pub check_identity : Platform → Offer → List ℕ → Download → Download × Bool
unfolding identity_matches
check_identity pf o bytes d =
    if d.identity_checked
    then (d, true)
    else let header = d.header ++ take (pf.header_size - length d.header) bytes in
      if length header == pf.header_size
      then if identity_matches pf o header
        then (record d { header = header; identity_checked = true }, true)
        else (record d { header = header }, false)
      else (record d { header = header }, true)

-- The rest of a round that has read `bytes`.
unfoldable pub store :
    Platform → Offer → List ℕ → Bool → Option Err → Download → Download × Option Err
unfolding check_identity
store pf o bytes hash_ok written d =
    if ltb o.size (d.total + length bytes)
    then (d, some invalid_size)
    else let (c, matches) = check_identity pf o bytes d in
      if not matches
      then (c, some invalid_version)
      else if not hash_ok
      then (c, some fail)
      else let total = d.total + length bytes in
        (
          record c {
            total = total;
            hashed = c.hashed ++ bytes;
            stored = if is_ok written then c.stored ++ bytes else c.stored;
            shown = c.shown ++ progress (total * 100 % 2 ^ 32 / o.size) ∷ [];
          },
          written,
        )

-- The loop. No further read is like one without data.
unfoldable pub fetch : Platform → Offer → List Read → Download → Download × Option Err
unfolding store
fetch pf o [] d = if ltb d.total o.size then (d, some invalid_response) else (d, none)
fetch pf o (no_data ∷ reads) d =
    if ltb d.total o.size then (d, some invalid_response) else (d, none)
fetch pf o (got b bytes hash_ok written ∷ reads) d =
    let (c, e) = store pf o (b ∷ bytes) hash_ok written d in
    let rest = fetch pf o reads c in
    if ltb d.total o.size then if is_ok e then rest else (c, e) else (d, none)

-- What the device and the network give from the image's URL on.
pub record Source : Type 0 where
  pub opened : Bool
  pub begun : Option Err
  pub hash_setup : Bool
  pub buffer : Bool
  pub reads : List Read
  pub hash_finished : Bool
  pub ended : Option Err
  pub boot_set : Option Err

-- What the function leaves: its result, the bytes of the partition, whether they are to boot, and
-- the calls of the screen.
pub record Outcome : Type 0 where
  pub result : Option Err
  pub image : List ℕ
  pub boots : Bool
  pub shown : List UiUpdate

-- The comparison at the end of the download.
unfoldable pub verify : Platform → Offer → Bool → Download → Option Err
verify pf o hash_finished d =
    if not (d.total == o.size)
      || not d.identity_checked
      || not hash_finished
      || not (same_text (pf.sha256 d.hashed) o.expected)
    then some invalid_crc
    else none

-- The image, once its URL is open.
unfoldable pub stage : Platform → Offer → Source → Outcome
unfolding fetch verify
stage pf o s =
    let started =
      s.begun
      then_if_ok (if s.hash_setup then none else some fail)
      then_if_ok (if s.buffer then none else some no_mem) in
    let (d, fetched) = fetch pf o s.reads no_download in
    let final = if is_ok started then d else no_download in
    let result =
      started
      then_if_ok fetched
      then_if_ok verify pf o s.hash_finished final
      then_if_ok s.ended
      then_if_ok s.boot_set in
    record {
      result = result;
      image = final.stored;
      boots = is_ok result;
      shown =
          installing o.version
          ∷ progress 0
          ∷ (final.shown ++ (if is_ok result then completed o.version ∷ [] else []));
    }

-- An outcome without an image.
abbrev pub no_image : Option Err → List UiUpdate → Outcome
no_image e shown = record { result = e; image = []; boots = false; shown = shown }

-- The decision on an offer and what follows it.
abbrev pub act_on : Platform → Bool → List ℕ → Source → Offer → Decision → Outcome
act_on pf install running s o invalid = no_image (some invalid_version) []
act_on pf install running s o downgrade = no_image none (status running o.version false true ∷ [])
act_on pf install running s o current = no_image none (status running o.version false false ∷ [])
act_on pf install running s o newer =
    let announced = status running o.version true false in
    let staged = stage pf o s in
    if not install
    then no_image none (announced ∷ [])
    else if not s.opened
    then no_image (some not_found) (announced ∷ installing o.version ∷ progress 0 ∷ [])
    else record staged { shown = announced ∷ staged.shown }

-- An offer, or the error that ends the function.
abbrev pub act : Platform → Bool → List ℕ → Source → Offer × Option Err → Outcome
act pf install running s (o, none) = act_on pf install running s o (decide running o.version)
act pf install running s (o, some e) = no_image (some e) []

-- The whole function, with the channel, the version that runs, and what it meets.
unfoldable pub touchscreen_ota : Platform → Bool → List ℕ → List ℕ → Feed → Source → Outcome
unfolding stage read_offer decide
touchscreen_ota pf install channel running f s =
    act pf install running s (read_offer pf.parse channel f)
