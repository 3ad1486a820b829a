-- ===== src/Touchscreen/Ota/Gates.antt =====
-- touchscreen_ota.cpp: what an image that is to boot has passed.
use keg_scale_espdisplay.Prelude.{
  ℕ, ◌≡◌, refl, sym, subst, Bool, true, Option, none, some, List, [], arith,
}
use keg_scale_espdisplay.Esp.{Err}
use keg_scale_espdisplay.Touchscreen.Ota.{
  Manifest, read_manifest, Offer, Feed, read_offer, Decision, invalid, downgrade, current, newer,
  decide,
}
use keg_scale_espdisplay.Touchscreen.Ota.Version.{parse_version}
use keg_scale_espdisplay.Touchscreen.Ota.Image.{
  Platform, Source, stage, act_on, act, touchscreen_ota,
}
use keg_scale_espdisplay.Touchscreen.Ota.Matching.{Matches, stage-Matches}
use keg_scale_espdisplay.Touchscreen.Ota.Offers.{
  NewerThan, decide-newer, Describes, parsed_or-offer, read_offer-parsed,
}

-- What a download that is to boot has passed: the user's confirmation, a manifest that is read and
-- valid, a version after the one that runs, and the comparison of the image with the manifest.
pub record Passed (pf : Platform) (install : Bool) (channel running : List ℕ) (f : Feed)
    (image : List ℕ) : Type 0 where
  pub offer : Offer
  pub asked : install ≡ true
  pub manifest : Manifest
  pub received : f.complete ≡ true
  pub read : pf.parse (read_manifest f.reads []) ≡ some manifest
  pub describes : Describes channel f.partition manifest offer
  pub newer_version : NewerThan (parse_version running) (parse_version offer.version)
  pub matches : Matches pf offer image

module _ (pf : Platform) (install : Bool) (channel running : List ℕ) (f : Feed) (s : Source) where
  act_on-boots :
      (o : Offer) (d : Decision)
      → (act_on pf install running s o d).boots ≡ true
      → (install ≡ true)
        × (d ≡ newer)
        × ((stage pf o s).boots ≡ true)
        × ((act_on pf install running s o d).image ≡ (stage pf o s).image)
  act_on-boots o invalid h = absurd (ground (arith, h))
  act_on-boots o downgrade h = absurd (ground (arith, h))
  act_on-boots o current h = absurd (ground (arith, h))
  act_on-boots o newer h = ground (arith, h)

  act-Passed :
      (r : Offer × Option Err)
      → read_offer pf.parse channel f ≡ r
      → (act pf install running s r).boots ≡ true
      → Passed pf install channel running f (act pf install running s r).image
  act-Passed (o, some e) eq h = absurd (ground (arith, h))
  act-Passed (o, none) eq h =
      let (asked, decided, boots, image) = act_on-boots o (decide running o.version) h in
      let (opened, received, offered) = read_offer-parsed pf.parse channel f o eq in
      let (m, parsed, describes) =
        parsed_or-offer channel f.partition (pf.parse (read_manifest f.reads [])) o offered in
      record {
        offer = o;
        asked = asked;
        manifest = m;
        received = received;
        read = parsed;
        describes = describes;
        newer_version = (decide-newer running o.version).0 decided;
        matches = subst (λ x. Matches pf o x) (sym image) (stage-Matches pf o s boots);
      }

  -- An image is to boot after the function only where the user asked for it, the manifest was read
  -- and is valid, its version is after the one that runs, and the image has the size, the SHA-256,
  -- the project and the version that the manifest says.
  pub touchscreen_ota-Passed :
      (touchscreen_ota pf install channel running f s).boots ≡ true
      → Passed pf install channel running f (touchscreen_ota pf install channel running f s).image
  unfolding touchscreen_ota
  touchscreen_ota-Passed h = act-Passed (read_offer pf.parse channel f) refl h
