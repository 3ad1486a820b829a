-- ===== src/Epaper/Scan/Examples.antt =====
-- A scan with two scales, one of which advertises twice, and room for one.
use keg_scale_espdisplay.Prelude.{◌≤◌, ◌≡◌, refl, true, none, some, [], ◌∷◌, arith, length, negsuc}
use keg_scale_espdisplay.Epaper.Scan.{Advertisement}
use keg_scale_espdisplay.Epaper.Scan.Candidates.{Distinct, scan, scan-Distinct}

abbrev first_scale : Advertisement
first_scale = record {
  address = record { kind = 0; bytes = 1 ∷ 2 ∷ [] };
  rssi = negsuc 40;
  uuids = true ∷ [];
  name = none;
  mfg_data = some (75 ∷ 83 ∷ 1 ∷ 3 ∷ 10 ∷ 0 ∷ 0 ∷ 9 ∷ []);
}

-- "KegScale-1" with the address of the first one.
abbrev first_name : Advertisement
first_name = record first_scale {
  uuids = [];
  name = some (75 ∷ 101 ∷ 103 ∷ 83 ∷ 99 ∷ 97 ∷ 108 ∷ 101 ∷ 45 ∷ 49 ∷ []);
  mfg_data = none;
}

abbrev other_scale : Advertisement
other_scale = record first_scale { address = record { kind = 1; bytes = 1 ∷ 2 ∷ [] } }

scan-one :
    scan 1 (first_scale ∷ first_name ∷ other_scale ∷ []) []
    ≡ record {
      address = first_scale.address;
      scale_id = 75 ∷ 101 ∷ 103 ∷ 83 ∷ 99 ∷ 97 ∷ 108 ∷ 101 ∷ 45 ∷ 49 ∷ [];
      rssi = negsuc 40;
      service_seen = true;
      pairing_mode = true;
      setup_url_available = true;
      ip = 10 ∷ 0 ∷ 0 ∷ 9 ∷ [];
    }
      ∷ []
unfolding keg_scale_espdisplay.Epaper.Scan.on_advertisement
scan-one = refl

scan-Distinct_example :
    Distinct (scan 1 (first_scale ∷ first_name ∷ other_scale ∷ []) [])
    × (length (scan 1 (first_scale ∷ first_name ∷ other_scale ∷ []) []) ≤ 1)
scan-Distinct_example =
    scan-Distinct 1 (first_scale ∷ first_name ∷ other_scale ∷ []) [] tt (omega arith)
