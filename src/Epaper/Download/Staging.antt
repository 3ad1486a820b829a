-- ===== src/Epaper/Download/Staging.antt =====
-- display_ota.c, `download_and_stage_once`: an image boots exactly when it is the one of the
-- bundle.
use keg_scale_espdisplay.Esp.{Err, is_ok}
use keg_scale_espdisplay.Prelude.{
  ℕ, ◌+◌, ◌≤◌, ◌≡◌, refl, sym, ap, ◌∙◌, ◌↔◌, ◌⊎◌, inl, inr, Bool, true, false, Option, none, List,
  [], ◌∷◌, ◌++◌, arith, Bool-cases, length, length-append, append_nil, append_assoc,
}
use keg_scale_espdisplay.Epaper.Update.{UpdateBundle}
use keg_scale_espdisplay.Epaper.Download.{
  max_u32, sha256_matches, Chunk, read_error, end_of_body, got, Attempt, Progress, no_progress,
  receive_bytes, receive, prepare, verify, Flash, no_image, finish, download_and_stage_once,
}

-- The bytes that the loop reads.
abbrev pub body : List Chunk → List ℕ
body [] = []
body (read_error ∷ rs) = []
body (end_of_body ∷ rs) = []
body (got b bytes hash_ok written ∷ rs) = (b ∷ bytes) ++ body rs

-- Every read, hash and write of the loop succeeds.
abbrev pub ChunksWork : List Chunk → Type 0
ChunksWork [] = Unit
ChunksWork (read_error ∷ rs) = ⊥
ChunksWork (end_of_body ∷ rs) = Unit
ChunksWork (got b bytes hash_ok written ∷ rs) = (hash_ok ≡ true) × (written ≡ none) × ChunksWork rs

-- Everything that the attempt asks of the device and of the network succeeds.
pub record Works (a : Attempt) : Type 0 where
  pub client : a.client ≡ true
  pub opened : a.opened ≡ none
  pub headers_ok : a.headers_ok ≡ true
  pub status : a.status ≡ 200
  pub buffer : a.buffer ≡ true
  pub partition : a.partition ≡ true
  pub begun : a.begun ≡ none
  pub hash_setup : a.hash_setup ≡ true
  pub chunks : ChunksWork a.chunks
  pub hash_finished : a.hash_finished ≡ true
  pub ended : a.ended ≡ none
  pub boot_set : a.boot_set ≡ none

-- The bytes are those that the bundle describes.
abbrev pub Accepted : (List ℕ → List ℕ) → UpdateBundle → List ℕ → Type 0
Accepted sha b bytes = (length bytes ≡ b.size_bytes) × (sha256_matches (sha bytes) b.sha256 ≡ true)

-- What the loop has where it ends well.
abbrev Received : List Chunk → Progress → Progress → Type 0
Received rs p q =
    (q.hashed ≡ p.hashed ++ body rs)
    × (q.stored ≡ p.stored ++ body rs)
    × (q.total ≡ p.total + length (body rs))

receive_bytes-Received :
    (bytes : List ℕ) (hash_ok : Bool) (written : Option Err) (p : Progress)
    → is_ok (receive_bytes bytes hash_ok written p).1 ≡ true
    → (hash_ok ≡ true)
      × (written ≡ none)
      × (let q = (receive_bytes bytes hash_ok written p).0 in
          (q.hashed ≡ p.hashed ++ bytes)
          × (q.stored ≡ p.stored ++ bytes)
          × (q.total ≡ p.total + length bytes))
unfolding receive_bytes
receive_bytes-Received bytes hash_ok written p e = ground arith

receive-Received :
    (rs : List Chunk) (p : Progress)
    → (receive rs p).1 ≡ none
    → ChunksWork rs × Received rs p (receive rs p).0
unfolding receive
receive-Received [] p e = (tt, (sym (append_nil p.hashed), sym (append_nil p.stored), omega arith))
receive-Received (end_of_body ∷ rs) p e =
    (tt, (sym (append_nil p.hashed), sym (append_nil p.stored), omega arith))
receive-Received (read_error ∷ rs) p e = ground arith
receive-Received (got b bytes hash_ok written ∷ rs) p e =
    let r = receive_bytes (b ∷ bytes) hash_ok written p in
    elim (Bool-cases (is_ok r.1)) [
      | inr f ↦ absurd (ground arith)
      | inl f ↦
          let (h, w, (x, y, z)) = receive_bytes-Received (b ∷ bytes) hash_ok written p f in
          let (works, (x', y', z')) = receive-Received rs r.0 (ground arith) in
          rw f (
            (h, w, works),
            (
              x' ∙ ap (λ xs. xs ++ body rs) x ∙ append_assoc p.hashed (b ∷ bytes) (body rs),
              y' ∙ ap (λ xs. xs ++ body rs) y ∙ append_assoc p.stored (b ∷ bytes) (body rs),
              omega (arith, z, z', length-append (b ∷ bytes) (body rs)),
            ),
          )
    ]

receive-ok :
    (rs : List Chunk) (p : Progress)
    → ChunksWork rs
    → p.total + length (body rs) ≤ max_u32
    → (receive rs p).1 ≡ none
unfolding receive receive_bytes
receive-ok [] p w l = refl
receive-ok (end_of_body ∷ rs) p w l = refl
receive-ok (read_error ∷ rs) p w l = absurd w
receive-ok (got b bytes hash_ok written ∷ rs) p w l =
    let n = length-append (b ∷ bytes) (body rs) in
    let q = receive_bytes (b ∷ bytes) hash_ok written p in
    let ih = receive-ok rs q.0 w.2 in ground (arith, ih)

-- What an attempt needs before the loop.
abbrev Opens : Attempt → Type 0
Opens a =
    (a.client ≡ true)
    × (a.opened ≡ none)
    × (a.headers_ok ≡ true)
    × (a.status ≡ 200)
    × (a.buffer ≡ true)
    × (a.partition ≡ true)
    × (a.begun ≡ none)
    × (a.hash_setup ≡ true)

Works-of :
    (a : Attempt)
    → Opens a
    → ChunksWork a.chunks
    → a.hash_finished ≡ true
    → a.ended ≡ none
    → a.boot_set ≡ none
    → Works a
Works-of a (client, opened, headers, status, buffer, partition, begun, setup) works fin en bo =
    record {
      client = client;
      opened = opened;
      headers_ok = headers;
      status = status;
      buffer = buffer;
      partition = partition;
      begun = begun;
      hash_setup = setup;
      chunks = works;
      hash_finished = fin;
      ended = en;
      boot_set = bo;
    }

Opens-of : (a : Attempt) → Works a → Opens a
Opens-of a w =
    (w.client, w.opened, w.headers_ok, w.status, w.buffer, w.partition, w.begun, w.hash_setup)

module _ (sha : List ℕ → List ℕ) (b : UpdateBundle) where
  verify-none_iff :
      (p : Progress)
      → (verify sha b p ≡ none)
        ↔ ((p.total ≡ b.size_bytes) × (sha256_matches (sha p.hashed) b.sha256 ≡ true))
  unfolding verify
  verify-none_iff p = ground arith

  -- What the end of an attempt needs.
  abbrev Finishes : Attempt → Progress × Option Err → Type 0
  Finishes a (p, e) =
      (e ≡ none)
      × (a.hash_finished ≡ true)
      × (verify sha b p ≡ none)
      × (a.ended ≡ none)
      × (a.boot_set ≡ none)

  finish-boots_iff :
      (a : Attempt) (r : Progress × Option Err) → ((finish sha b a r).0.boots ≡ true) ↔ Finishes a r
  unfolding finish
  finish-boots_iff a (p, e) = ground arith

  once_cases :
      (a : Attempt)
      → (((download_and_stage_once sha b a).0 ≡ no_image)
          × (is_ok (download_and_stage_once sha b a).1 ≡ false))
        ⊎ (Opens a
            × (download_and_stage_once sha b a ≡ finish sha b a (receive a.chunks no_progress)))
  unfolding download_and_stage_once prepare
  once_cases a = ground arith

  once-Opens :
      (a : Attempt)
      → Opens a
      → download_and_stage_once sha b a ≡ finish sha b a (receive a.chunks no_progress)
  unfolding download_and_stage_once prepare
  once-Opens a h = ground arith

  -- For a bundle whose size fits in 32 bits, an attempt ends with its image as the one to boot
  -- exactly when everything that it asks of the device and the network succeeds and the bytes read
  -- are as many as the bundle says and have its SHA-256.
  pub boots_iff :
      (a : Attempt)
      → b.size_bytes ≤ max_u32
      → ((download_and_stage_once sha b a).0.boots ≡ true)
        ↔ (Works a × Accepted sha b (body a.chunks))
  boots_iff a small = (to, from)
    where
      to :
          (download_and_stage_once sha b a).0.boots ≡ true
          → Works a × Accepted sha b (body a.chunks)
      to h = elim (once_cases a) [
        | inl (e, f) ↦ absurd (ground (arith, ap (λ (x : Flash). x.boots) e))
        | inr (o, e) ↦
            let r = receive a.chunks no_progress in
            let boots : (finish sha b a r).0.boots ≡ true =
              sym (ap (λ (x : Flash × Option Err). x.0.boots) e) ∙ h in
            let (none_e, fin, ver, en, bo) = (finish-boots_iff a r).0 boots in
            let (works, (x, y, z)) = receive-Received a.chunks no_progress none_e in
            let (size, matched) = (verify-none_iff r.0).0 ver in
            (
              Works-of a o works fin en bo,
              (omega arith, ap (λ bytes. sha256_matches (sha bytes) b.sha256) (sym x) ∙ matched),
            )
      ]

      from :
          Works a × Accepted sha b (body a.chunks)
          → (download_and_stage_once sha b a).0.boots ≡ true
      from (w, (size, matched)) =
          let r = receive a.chunks no_progress in
          let e = receive-ok a.chunks no_progress w.chunks (omega (arith, size, small)) in
          let (works, (x, y, z)) = receive-Received a.chunks no_progress e in
          let ver : verify sha b r.0 ≡ none =
            (verify-none_iff r.0).1
              (omega arith, ap (λ bytes. sha256_matches (sha bytes) b.sha256) x ∙ matched) in
          ap (λ (x : Flash × Option Err). x.0.boots) (once-Opens a (Opens-of a w))
          ∙ (finish-boots_iff a r).1 (e, w.hash_finished, ver, w.ended, w.boot_set)

  finish-boots :
      (a : Attempt) (r : Progress × Option Err)
      → (finish sha b a r).0.boots ≡ is_ok (finish sha b a r).1
  unfolding finish
  finish-boots a (p, e) = refl

  -- An attempt reports ESP_OK exactly where its image is the one to boot.
  pub boots-is_ok :
      (a : Attempt)
      → (download_and_stage_once sha b a).0.boots ≡ is_ok (download_and_stage_once sha b a).1
  boots-is_ok a = elim (once_cases a) [
    | inl (e, f) ↦ ap (λ (x : Flash). x.boots) e ∙ sym f
    | inr (o, e) ↦
        ap (λ (x : Flash × Option Err). x.0.boots) e
        ∙ finish-boots a (receive a.chunks no_progress)
        ∙ sym (ap (λ (x : Flash × Option Err). is_ok x.1) e)
  ]

  finish-image : (a : Attempt) (r : Progress × Option Err) → (finish sha b a r).0.image ≡ r.0.stored
  unfolding finish
  finish-image a (p, e) = refl

  -- The image of an attempt that makes it the one to boot is the bytes read.
  pub boots-image :
      (a : Attempt)
      → (download_and_stage_once sha b a).0.boots ≡ true
      → (download_and_stage_once sha b a).0.image ≡ body a.chunks
  boots-image a h = elim (once_cases a) [
    | inl (e, f) ↦ absurd (ground (arith, ap (λ (x : Flash). x.boots) e))
    | inr (o, e) ↦
        let r = receive a.chunks no_progress in
        let boots = sym (ap (λ (x : Flash × Option Err). x.0.boots) e) ∙ h in
        let none_e = ((finish-boots_iff a r).0 boots).0 in
        let (works, (x, y, z)) = receive-Received a.chunks no_progress none_e in
        ap (λ (x : Flash × Option Err). x.0.image) e ∙ finish-image a r ∙ y
  ]
