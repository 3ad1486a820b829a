-- ===== src/Touchscreen/Ota/Examples.antt =====
-- Updates of the touchscreen on a small feed. The parser knows one manifest, the header is the
-- first two bytes, whose description is right where they are 1 and 2, and SHA-256 is replaced by 32
-- bytes that hold the length.
use keg_scale_espdisplay.Prelude.{
  ℕ, ◌%◌, ◌≡◌, refl, true, false, Option, none, some, List, [], ◌∷◌, ◌++◌, length, replicate,
  same_text,
}
use keg_scale_espdisplay.Esp.{invalid_version}
use keg_scale_espdisplay.Touchscreen.Hex.{cl_hex}
use keg_scale_espdisplay.Touchscreen.Ota.{
  whole, fraction, Manifest, hardware_name, target_name, base, Feed, status, installing, progress,
  completed,
}
use keg_scale_espdisplay.Touchscreen.Ota.Version.{parse_version}
use keg_scale_espdisplay.Touchscreen.Ota.Image.{
  Platform, project, got, Source, no_image, touchscreen_ota,
}
use keg_scale_espdisplay.Touchscreen.Ota.Gates.{Passed, touchscreen_ota-Passed}

-- "stable"
abbrev stable : List ℕ
stable = 115 ∷ 116 ∷ 97 ∷ 98 ∷ 108 ∷ 101 ∷ []

-- "V1.2.10" and "V1.2.9"
abbrev latest : List ℕ
latest = 86 ∷ 49 ∷ 46 ∷ 50 ∷ 46 ∷ 49 ∷ 48 ∷ []

abbrev running : List ℕ
running = 86 ∷ 49 ∷ 46 ∷ 50 ∷ 46 ∷ 57 ∷ []

abbrev four_bytes : Manifest
four_bytes = record {
  size = some (whole 4);
  version = latest;
  hardware = hardware_name;
  target = target_name;
  channel = stable;
  url = base stable ++ 120 ∷ [];
  sha256 = cl_hex (replicate 32 4);
  protocol = some (whole 1);
  minimum = some (whole 1);
  maximum = some (fraction 1);
}

abbrev parse_byte : List ℕ → Option Manifest
parse_byte [] = none
parse_byte (c ∷ text) = some four_bytes

abbrev small_platform : Platform
small_platform = record {
  parse = parse_byte;
  header_size = 2;
  desc = λ header. record {
    magic = same_text header (1 ∷ 2 ∷ []);
    project_name = project;
    version = latest;
  };
  sha256 = λ bytes. replicate 32 (length bytes % 256);
}

abbrev good_feed : Feed
good_feed = record {
  opened = true;
  buffer = true;
  reads = (123 ∷ []) ∷ [] ∷ [];
  complete = true;
  partition = some 100;
}

abbrev good_source : Source
good_source = record {
  opened = true;
  begun = none;
  hash_setup = true;
  buffer = true;
  reads = got 1 [] true none ∷ got 2 (7 ∷ 8 ∷ []) true none ∷ [];
  hash_finished = true;
  ended = none;
  boot_set = none;
}

touchscreen_ota-installs :
    touchscreen_ota small_platform true stable running good_feed good_source ≡ record {
      result = none;
      image = 1 ∷ 2 ∷ 7 ∷ 8 ∷ [];
      boots = true;
      shown =
          status running latest true false
          ∷ installing latest
          ∷ progress 0
          ∷ progress 25
          ∷ progress 100
          ∷ completed latest
          ∷ [];
    }
unfolding touchscreen_ota keg_scale_espdisplay.Touchscreen.Ota.Version.to_unsigned
touchscreen_ota-installs = refl

-- The other way round it is a downgrade, and without the confirmation only the offer is shown.
touchscreen_ota-downgrade :
    touchscreen_ota small_platform true stable
      (86 ∷ 50 ∷ 46 ∷ 48 ∷ 46 ∷ 48 ∷ [])
      good_feed
      good_source
    ≡ no_image none (status (86 ∷ 50 ∷ 46 ∷ 48 ∷ 46 ∷ 48 ∷ []) latest false true ∷ [])
unfolding touchscreen_ota keg_scale_espdisplay.Touchscreen.Ota.Version.to_unsigned
touchscreen_ota-downgrade = refl

touchscreen_ota-checks :
    touchscreen_ota small_platform false stable running good_feed good_source
    ≡ no_image none (status running latest true false ∷ [])
unfolding touchscreen_ota keg_scale_espdisplay.Touchscreen.Ota.Version.to_unsigned
touchscreen_ota-checks = refl

-- The header of another project.
touchscreen_ota-other_image :
    (touchscreen_ota small_platform true stable running good_feed
      (record good_source { reads = got 1 (3 ∷ []) true none ∷ [] })).result
    ≡ some invalid_version
unfolding touchscreen_ota keg_scale_espdisplay.Touchscreen.Ota.Version.to_unsigned
touchscreen_ota-other_image = refl

parse_version-suffix : parse_version (86 ∷ 49 ∷ 46 ∷ 50 ∷ 46 ∷ 51 ∷ 98 ∷ []) ≡ none
parse_version-suffix = refl

touchscreen_ota-Passed_example :
    Passed small_platform true stable running good_feed
      (touchscreen_ota small_platform true stable running good_feed good_source).image
unfolding touchscreen_ota keg_scale_espdisplay.Touchscreen.Ota.Version.to_unsigned
touchscreen_ota-Passed_example =
    touchscreen_ota-Passed small_platform true stable running good_feed good_source refl
