-- ===== src/Touchscreen/Ota/Matching.antt =====
-- touchscreen_ota.cpp: the comparison of an image with the offer.
use keg_scale_espdisplay.Prelude.{
  ℕ, ◌+◌, ◌-◌, ◌≡◌, refl, sym, ap, ◌∙◌, subst, Bool, true, Option, none, List, [], ◌∷◌, ◌++◌, arith,
  length, take, length-append, same_text, append_nil, same_text-eq, take-nil, take-append,
}
use keg_scale_espdisplay.Esp.{Err, is_ok}
use keg_scale_espdisplay.Touchscreen.Ota.{Offer}
use keg_scale_espdisplay.Touchscreen.Ota.Image.{
  Platform, Read, no_data, got, Download, no_download, identity_matches, check_identity, store,
  fetch, Source, verify, stage,
}

module _ (pf : Platform) (o : Offer) where
  -- The bytes counted, hashed and written are the same, the header is what they begin with, and it
  -- has been compared where the download says so.
  record Consistent (d : Download) : Type 0 where
    pub total : d.total ≡ length d.hashed
    pub stored : d.stored ≡ d.hashed
    pub header : d.header ≡ take pf.header_size d.hashed
    pub whole_header : d.identity_checked ≡ true → length d.header ≡ pf.header_size
    pub identity : d.identity_checked ≡ true → identity_matches pf o d.header ≡ true

  -- The header with the bytes that it still lacks.
  abbrev grown : List ℕ → Download → List ℕ
  grown bytes d = d.header ++ take (pf.header_size - length d.header) bytes

  grown-take :
      (bytes : List ℕ) (d : Download)
      → d.header ≡ take pf.header_size d.hashed
      → grown bytes d ≡ take pf.header_size (d.hashed ++ bytes)
  grown-take bytes d h =
      subst
        (λ header.
          header ++ take (pf.header_size - length header) bytes
          ≡ take pf.header_size (d.hashed ++ bytes))
        (sym h) (sym (take-append pf.header_size d.hashed bytes))

  grown-full :
      (bytes : List ℕ) (d : Download) → length d.header ≡ pf.header_size → grown bytes d ≡ d.header
  grown-full bytes d h =
      let none_left : pf.header_size - length d.header ≡ 0 = omega (arith, h) in
      ap (λ m. d.header ++ take m bytes) none_left ∙ append_nil d.header

  check_identity-header :
      (bytes : List ℕ) (d : Download)
      → (d.identity_checked ≡ true → length d.header ≡ pf.header_size)
      → (check_identity pf o bytes d).0.header ≡ grown bytes d
  unfolding check_identity
  check_identity-header bytes d h = ground (arith, grown-full bytes d)

  check_identity-rest :
      (bytes : List ℕ) (d : Download)
      → let c = (check_identity pf o bytes d).0 in
        (c.total ≡ d.total) × (c.hashed ≡ d.hashed) × (c.stored ≡ d.stored)
  unfolding check_identity
  check_identity-rest bytes d = ground arith

  check_identity-checked :
      (bytes : List ℕ) (d : Download)
      → Consistent d
      → let c = (check_identity pf o bytes d).0 in
        c.identity_checked ≡ true
        → (length c.header ≡ pf.header_size) × (identity_matches pf o c.header ≡ true)
  unfolding check_identity
  check_identity-checked bytes d k h = ground (arith, k.whole_header, k.identity)

  store-fields :
      (bytes : List ℕ) (hash_ok : Bool) (written : Option Err) (d : Download)
      → is_ok (store pf o bytes hash_ok written d).1 ≡ true
      → let c = (check_identity pf o bytes d).0 in
        let e = (store pf o bytes hash_ok written d).0 in
        (e.total ≡ d.total + length bytes)
        × (e.hashed ≡ c.hashed ++ bytes)
        × (e.stored ≡ c.stored ++ bytes)
        × (e.header ≡ c.header)
        × (e.identity_checked ≡ c.identity_checked)
  unfolding store
  store-fields bytes hash_ok written d h = ground arith

  store-Consistent :
      (bytes : List ℕ) (hash_ok : Bool) (written : Option Err) (d : Download)
      → Consistent d
      → is_ok (store pf o bytes hash_ok written d).1 ≡ true
      → Consistent (store pf o bytes hash_ok written d).0
  store-Consistent bytes hash_ok written d k h =
      let c = (check_identity pf o bytes d).0 in
      let e = (store pf o bytes hash_ok written d).0 in
      let (total, hashed, stored, header, checked) = store-fields bytes hash_ok written d h in
      let (total_c, hashed_c, stored_c) = check_identity-rest bytes d in
      let hashed' : e.hashed ≡ d.hashed ++ bytes = hashed ∙ ap (λ xs. xs ++ bytes) hashed_c in
      let identified : e.identity_checked ≡ true
          → (length c.header ≡ pf.header_size) × (identity_matches pf o c.header ≡ true) =
        λ i. check_identity-checked bytes d k (sym checked ∙ i) in
      record {
        total = omega (arith, total, k.total, ap length hashed', length-append d.hashed bytes);
        stored = stored ∙ ap (λ xs. xs ++ bytes) (stored_c ∙ k.stored) ∙ sym hashed';
        header =
            header
            ∙ check_identity-header bytes d k.whole_header
            ∙ grown-take bytes d k.header
            ∙ ap (λ xs. take pf.header_size xs) (sym hashed');
        whole_header = λ i. ap length header ∙ (identified i).0;
        identity = λ i. ap (λ xs. identity_matches pf o xs) header ∙ (identified i).1;
      }

  fetch-Consistent :
      (reads : List Read) (d : Download)
      → Consistent d
      → (fetch pf o reads d).1 ≡ none
      → Consistent (fetch pf o reads d).0
  unfolding fetch
  fetch-Consistent [] d k h = ground arith
  fetch-Consistent (no_data ∷ reads) d k h = ground arith
  fetch-Consistent (got b bytes hash_ok written ∷ reads) d k h =
      let r = store pf o (b ∷ bytes) hash_ok written d in
      let ih = fetch-Consistent reads r.0 in
      let k' = store-Consistent (b ∷ bytes) hash_ok written d k in ground (arith, ih, k')

  no_download-Consistent : Consistent no_download
  no_download-Consistent = record {
    total = refl;
    stored = refl;
    header = sym (take-nil pf.header_size);
    whole_header = λ i. absurd (ground (arith, i));
    identity = λ i. absurd (ground (arith, i));
  }

  -- An image that is what the offer says: as long, with its SHA-256, of this project and version.
  pub record Matches (image : List ℕ) : Type 0 where
    pub size : length image ≡ o.size
    pub digest : pf.sha256 image ≡ o.expected
    pub identity : identity_matches pf o (take pf.header_size image) ≡ true

  verify-passes :
      (finished : Bool) (d : Download)
      → verify pf o finished d ≡ none
      → (d.total ≡ o.size)
        × (d.identity_checked ≡ true)
        × (same_text (pf.sha256 d.hashed) o.expected ≡ true)
  unfolding verify
  verify-passes finished d h = ground arith

  stage-passes :
      (s : Source)
      → (stage pf o s).boots ≡ true
      → let r = fetch pf o s.reads no_download in
        (r.1 ≡ none)
        × (verify pf o s.hash_finished r.0 ≡ none)
        × ((stage pf o s).image ≡ r.0.stored)
  unfolding stage
  stage-passes s h = ground arith

  pub stage-Matches : (s : Source) → (stage pf o s).boots ≡ true → Matches (stage pf o s).image
  stage-Matches s h =
      let d = (fetch pf o s.reads no_download).0 in
      let (fetched, passed, image) = stage-passes s h in
      let k = fetch-Consistent s.reads no_download no_download-Consistent fetched in
      let (total, checked, digest) = verify-passes s.hash_finished d passed in
      let same_bytes : (stage pf o s).image ≡ d.hashed = image ∙ k.stored in
      record {
        size = ap length same_bytes ∙ sym k.total ∙ total;
        digest = ap pf.sha256 same_bytes ∙ same_text-eq (pf.sha256 d.hashed) o.expected digest;
        identity =
            ap (λ xs. identity_matches pf o (take pf.header_size xs)) same_bytes
            ∙ ap (λ xs. identity_matches pf o xs) (sym k.header)
            ∙ k.identity checked;
      }
