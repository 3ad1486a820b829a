-- ===== src/Touchscreen/Ota/Offers.antt =====
-- touchscreen_ota.cpp: what an offer and the decision on it say of the manifest and the versions.
use keg_scale_espdisplay.Prelude.{
  ℕ, ◌≤◌, ◌<◌, ◌≡◌, refl, ◌↔◌, ◌⊎◌, Bool, true, false, Option, none, some, List, [], arith, take,
}
use keg_scale_espdisplay.Touchscreen.Hex.{cl_unhex}
use keg_scale_espdisplay.Touchscreen.Ota.{
  Number, negative, whole, fraction, huge, Manifest, read_manifest, size_within, identity_valid,
  Offer, offer_of, valid_offer, Feed, parsed_or, read_offer, newer, decide_parsed, decide,
}
use keg_scale_espdisplay.Touchscreen.Ota.Version.{parse_version, compare_parsed}

-- The first version is before the second.
abbrev pub Before : ℕ × ℕ × ℕ → ℕ × ℕ × ℕ → Type 0
Before (a₁, a₂, a₃) (b₁, b₂, b₃) = (a₁ < b₁) ⊎ ((a₁ ≡ b₁) × ((a₂ < b₂) ⊎ ((a₂ ≡ b₂) × (a₃ < b₃))))

-- The two versions are read, and the first is before the second.
abbrev pub NewerThan : Option (ℕ × ℕ × ℕ) → Option (ℕ × ℕ × ℕ) → Type 0
NewerThan none l = ⊥
NewerThan (some r) none = ⊥
NewerThan (some r) (some l) = Before r l

decide_parsed-newer :
    (r l : Option (ℕ × ℕ × ℕ)) → (decide_parsed r l (compare_parsed l r) ≡ newer) ↔ NewerThan r l
unfolding keg_scale_espdisplay.Touchscreen.Ota.Version.compare_parts
decide_parsed-newer none l = ground arith
decide_parsed-newer (some r) none = ground arith
decide_parsed-newer (some (r₁, r₂, r₃)) (some (l₁, l₂, l₃)) = ground arith

pub decide-newer :
    (running latest : List ℕ)
    → (decide running latest ≡ newer) ↔ NewerThan (parse_version running) (parse_version latest)
unfolding decide
decide-newer running latest = decide_parsed-newer (parse_version running) (parse_version latest)

-- The manifest is one for this device and the channel, and the offer is what it says.
pub record Describes (channel : List ℕ) (partition : Option ℕ) (m : Manifest) (o : Offer)
    : Type 0 where
  pub room : ℕ
  pub has_room : partition ≡ some room
  pub identity : identity_valid channel m ≡ true
  pub size : m.size ≡ some (whole o.size)
  pub positive : 0 < o.size
  pub fits : o.size ≤ room
  pub version : o.version ≡ take 31 m.version
  pub expected : cl_unhex m.sha256 32 ≡ some o.expected

size_within-whole :
    (room n : ℕ) (size : Option Number)
    → size_within room size ≡ some n
    → (size ≡ some (whole n)) × (0 < n) × (n ≤ room)
size_within-whole room n (some (whole k)) h = ground (arith, h)
size_within-whole room n (some (fraction k)) h = absurd (ground (arith, h))
size_within-whole room n (some negative) h = absurd (ground (arith, h))
size_within-whole room n (some huge) h = absurd (ground (arith, h))
size_within-whole room n none h = absurd (ground (arith, h))

offer_of-fields :
    (valid : Bool) (version : List ℕ) (size : Option ℕ) (digest : Option (List ℕ)) (o : Offer)
    → offer_of valid version size digest ≡ some o
    → (valid ≡ true)
      × (size ≡ some o.size)
      × (digest ≡ some o.expected)
      × (o.version ≡ take 31 version)
offer_of-fields false version size digest o h = absurd (ground (arith, h))
offer_of-fields true version none digest o h = absurd (ground (arith, h))
offer_of-fields true version (some n) none o h = absurd (ground (arith, h))
offer_of-fields true version (some n) (some digest) o h = ground (arith, h)

valid_offer-Describes :
    (channel : List ℕ) (partition : Option ℕ) (m : Manifest) (o : Offer)
    → valid_offer channel partition m ≡ some o
    → Describes channel partition m o
valid_offer-Describes channel none m o h = absurd (ground (arith, h))
valid_offer-Describes channel (some room) m o h =
    let (valid, size, digest, version) =
      offer_of-fields (identity_valid channel m) m.version (size_within room m.size)
        (cl_unhex m.sha256 32) o h in
    let (is_whole, positive, fits) = size_within-whole room o.size m.size size in
    record {
      room = room;
      has_room = refl;
      identity = valid;
      size = is_whole;
      positive = positive;
      fits = fits;
      version = version;
      expected = digest;
    }

pub parsed_or-offer :
    (channel : List ℕ) (partition : Option ℕ) (parsed : Option Manifest) (o : Offer)
    → parsed_or channel partition parsed ≡ (o, none)
    → (m : Manifest) × (parsed ≡ some m) × Describes channel partition m o
parsed_or-offer channel partition none o h = absurd (ground (arith, h))
parsed_or-offer channel partition (some m) o h =
    let e : valid_offer channel partition m ≡ some o = ground (arith, h) in
    (m, refl, valid_offer-Describes channel partition m o e)

pub read_offer-parsed :
    (parse : List ℕ → Option Manifest) (channel : List ℕ) (f : Feed) (o : Offer)
    → read_offer parse channel f ≡ (o, none)
    → (f.opened ≡ true)
      × (f.complete ≡ true)
      × (parsed_or channel f.partition (parse (read_manifest f.reads [])) ≡ (o, none))
unfolding read_offer
read_offer-parsed parse channel f o h = ground arith
