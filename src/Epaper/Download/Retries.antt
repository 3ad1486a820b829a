-- ===== src/Epaper/Download/Retries.antt =====
-- display_ota.c, `download_and_stage` and `display_ota_install`: the flash after the retries.
use keg_scale_espdisplay.Prelude.{
  ℕ, zero, suc, ◌+◌, ◌≤◌, ◌<◌, ◌≡◌, refl, sym, ap, ◌∙◌, subst, ◌↔◌, ◌⊎◌, inl, inr, Bool, true,
  false, Option, none, some, List, [], arith, Bool-cases,
}
use keg_scale_espdisplay.Esp.{Err, fail, invalid_arg, timeout, is_ok}
use keg_scale_espdisplay.Epaper.Update.{UpdateBundle}
use keg_scale_espdisplay.Epaper.Download.{
  max_u32, Attempt, Flash, no_image, download_and_stage_once, Try, wait_for_wifi_ready, try_once,
  attempts_from, installable, download_if, install,
}
use keg_scale_espdisplay.Epaper.Download.Staging.{
  body, Works, Accepted, boots_iff, boots-is_ok, boots-image,
}

-- What an update of a device is, whatever the way: the image to boot stays the one that runs, or it
-- becomes one that the bundle describes, which is said by the result.
pub data Updated (sha : List ℕ → List ℕ) (b : UpdateBundle) : Flash × Option Err → Type 0 where
  stays :
      (image : List ℕ) (e : Err) → Updated sha b (record { image = image; boots = false }, some e)
  replaced :
      (image : List ℕ)
      → Accepted sha b image
      → Updated sha b (record { image = image; boots = true }, none)

-- One of the `n` numbers from `i` on has the property.
abbrev pub SomeFrom : (ℕ → Type 0) → ℕ → ℕ → Type 0
SomeFrom P i n = (k : ℕ) × (k < n) × P (i + k)

SomeFrom-first : (P : ℕ → Type 0) (i n : ℕ) → SomeFrom P i (suc n) ↔ (P i ⊎ SomeFrom P (i + 1) n)
SomeFrom-first P i n = (split, join)
  where
    split : SomeFrom P i (suc n) → P i ⊎ SomeFrom P (i + 1) n
    split (zero, l, p) = inl (subst P (omega arith) p)
    split (suc k, l, p) = inr (k, omega arith, subst P (omega arith) p)

    join : P i ⊎ SomeFrom P (i + 1) n → SomeFrom P i (suc n)
    join (inl p) = (0, omega arith, subst P (omega arith) p)
    join (inr (k, l, p)) = (suc k, omega arith, subst P (omega arith) p)

module _ (sha : List ℕ → List ℕ) (b : UpdateBundle) where
  -- A flash and a result that agree.
  Updated-at :
      (image : List ℕ) (boots : Bool) (e : Option Err)
      → boots ≡ is_ok e
      → (boots ≡ true → Accepted sha b image)
      → Updated sha b (record { image = image; boots = boots }, e)
  Updated-at image true none h k = replaced image (k refl)
  Updated-at image true (some e) h k = absurd (ground (arith, h))
  Updated-at image false none h k = absurd (ground (arith, h))
  Updated-at image false (some e) h k = stays image e

  Updated-of :
      (r : Flash × Option Err)
      → r.0.boots ≡ is_ok r.1
      → (r.0.boots ≡ true → Accepted sha b r.0.image)
      → Updated sha b r
  Updated-of (flash, e) h k = Updated-at flash.image flash.boots e h k

  Updated-boots : (r : Flash × Option Err) → Updated sha b r → r.0.boots ≡ is_ok r.1
  Updated-boots r (stays image e) = refl
  Updated-boots r (replaced image h) = refl

  once-Updated :
      (a : Attempt) → b.size_bytes ≤ max_u32 → Updated sha b (download_and_stage_once sha b a)
  once-Updated a small = Updated-of (download_and_stage_once sha b a) (boots-is_ok sha b a) (λ h.
      subst (λ image. Accepted sha b image) (sym (boots-image sha b a h))
        ((boots_iff sha b a small).0 h).1)

  try_once-cases :
      (t : Try) (flash : Flash)
      → ((wait_for_wifi_ready t ≡ none)
          × (try_once sha b t flash ≡ download_and_stage_once sha b t.attempt))
        ⊎ ((wait_for_wifi_ready t ≡ some timeout)
            × (try_once sha b t flash ≡ (flash, some timeout)))
  unfolding try_once wait_for_wifi_ready
  try_once-cases t flash = ground arith

  try_once-Updated :
      (t : Try) (r : Flash × Option Err)
      → b.size_bytes ≤ max_u32
      → is_ok r.1 ≡ false
      → Updated sha b r
      → Updated sha b (try_once sha b t r.0)
  try_once-Updated t r small f u = elim (try_once-cases t r.0) [
    | inl (w, e) ↦ subst (λ x. Updated sha b x) (sym e) (once-Updated t.attempt small)
    | inr (w, e) ↦
        let h = Updated-boots r u ∙ f in
        subst (λ x. Updated sha b x) (sym e)
          (Updated-of (r.0, some timeout) h (λ k. absurd (ground (arith, h, k))))
  ]

  attempts_from-Updated :
      (n : ℕ) (tries : ℕ → Try) (i : ℕ) (r : Flash × Option Err)
      → b.size_bytes ≤ max_u32
      → is_ok r.1 ≡ false
      → Updated sha b r
      → Updated sha b (attempts_from sha b n tries i r)
  attempts_from-Updated zero tries i (flash, e) small f u = u
  attempts_from-Updated (suc n) tries i (flash, e) small f u =
      let r = try_once sha b (tries i) flash in
      let u' = try_once-Updated (tries i) (flash, e) small f u in
      elim (Bool-cases (is_ok r.1)) [
        | inl k ↦ rw k u'
        | inr k ↦ rw k (attempts_from-Updated n tries (i + 1) r small k u')
      ]

  -- The round of the retries reaches the server and makes the image the one to boot.
  abbrev pub Succeeds : Try → Type 0
  Succeeds t =
      (wait_for_wifi_ready t ≡ none) × Works t.attempt × Accepted sha b (body t.attempt.chunks)

  try_once-Succeeds :
      (t : Try) (flash : Flash)
      → b.size_bytes ≤ max_u32
      → (is_ok (try_once sha b t flash).1 ≡ true) ↔ Succeeds t
  try_once-Succeeds t flash small = elim (try_once-cases t flash) [
    | inl (w, e) ↦
        let same_ok =
          ap (λ (x : Flash × Option Err). is_ok x.1) e ∙ sym (boots-is_ok sha b t.attempt) in
        let (to, from) = boots_iff sha b t.attempt small in
        (
          λ h. (w, (to (sym same_ok ∙ h)).0, (to (sym same_ok ∙ h)).1),
          λ (w', works, accepted). same_ok ∙ from (works, accepted),
        )
    | inr (w, e) ↦ (
      λ h. absurd (ground (arith, ap (λ (x : Flash × Option Err). is_ok x.1) e, h)),
      λ (w', works, accepted). absurd (ground (arith, w, w')),
    )
  ]

  attempts_from-Succeeds :
      (n : ℕ) (tries : ℕ → Try) (i : ℕ) (r : Flash × Option Err)
      → b.size_bytes ≤ max_u32
      → is_ok r.1 ≡ false
      → (is_ok (attempts_from sha b n tries i r).1 ≡ true) ↔ SomeFrom (λ j. Succeeds (tries j)) i n
  attempts_from-Succeeds zero tries i (flash, e) small f =
      (λ h. absurd (ground (arith, f, h)), λ (k, l, s). absurd (omega (arith, l)))
  attempts_from-Succeeds (suc n) tries i (flash, e) small f =
      let r = try_once sha b (tries i) flash in
      let (to, from) = try_once-Succeeds (tries i) flash small in
      let (split, join) = SomeFrom-first (λ j. Succeeds (tries j)) i n in
      elim (Bool-cases (is_ok r.1)) [
        | inl k ↦ rw k (λ h. join (inl (to k)), λ h. k)
        | inr k ↦
            let (to', from') = attempts_from-Succeeds n tries (i + 1) r small k in
            rw k (
              λ h. join (inr (to' h)),
              λ h. elim (split h) [ inl s ↦ absurd (ground (arith, k, from s)) | inr s ↦ from' s ],
            )
      ]

  download_if-Updated :
      (connected : Option Err) (tries : ℕ → Try)
      → b.size_bytes ≤ max_u32
      → Updated sha b (download_if sha connected tries b)
  download_if-Updated none tries small =
      attempts_from-Updated 3 tries 0 (no_image, some fail) small refl (stays [] fail)
  download_if-Updated (some e) tries small = stays [] e

  install-rejected :
      (connected : Option Err) (tries : ℕ → Try)
      → installable b ≡ false
      → install sha connected tries b ≡ (b, (no_image, some invalid_arg))
  unfolding install
  install-rejected connected tries h = ground (arith, h)

  install-accepted :
      (connected : Option Err) (tries : ℕ → Try)
      → installable b ≡ true
      → install sha connected tries b
        ≡ (record b { password = []; ssid = [] }, download_if sha connected tries b)
  unfolding install
  install-accepted connected tries h = rw h refl

  -- For a bundle whose size fits in 32 bits, whatever the device and the network do, an
  -- installation leaves the running image as the one to boot and reports an error, or makes an
  -- image the one to boot whose length and SHA-256 are the bundle's, and reports ESP_OK.
  pub install-Updated :
      (connected : Option Err) (tries : ℕ → Try)
      → b.size_bytes ≤ max_u32
      → Updated sha b (install sha connected tries b).1
  install-Updated connected tries small = elim (Bool-cases (installable b)) [
    | inl h ↦
        subst (λ (x : UpdateBundle × (Flash × Option Err)). Updated sha b x.1)
          (sym (install-accepted connected tries h)) (download_if-Updated connected tries small)
    | inr h ↦
        subst (λ (x : UpdateBundle × (Flash × Option Err)). Updated sha b x.1)
          (sym (install-rejected connected tries h)) (stays [] invalid_arg)
  ]

  download_if-Succeeds :
      (connected : Option Err) (tries : ℕ → Try)
      → b.size_bytes ≤ max_u32
      → (is_ok (download_if sha connected tries b).1 ≡ true)
        ↔ ((connected ≡ none) × SomeFrom (λ j. Succeeds (tries j)) 0 3)
  download_if-Succeeds none tries small =
      let (to, from) = attempts_from-Succeeds 3 tries 0 (no_image, some fail) small refl in
      (λ h. (refl, to h), λ (c, s). from s)
  download_if-Succeeds (some e) tries small =
      (λ h. absurd (ground (arith, h)), λ (c, s). absurd (ground (arith, c)))

  -- For a bundle whose size fits in 32 bits, an installation reports ESP_OK exactly when it passes
  -- the guard, the Wi-Fi connects and one of the three rounds succeeds, whatever the rounds before
  -- it met.
  pub install_iff :
      (connected : Option Err) (tries : ℕ → Try)
      → b.size_bytes ≤ max_u32
      → (is_ok (install sha connected tries b).1.1 ≡ true)
        ↔ ((installable b ≡ true) × ((connected ≡ none) × SomeFrom (λ j. Succeeds (tries j)) 0 3))
  install_iff connected tries small = elim (Bool-cases (installable b)) [
    | inl h ↦
        let (to, from) = download_if-Succeeds connected tries small in
        let e =
          ap (λ (x : UpdateBundle × (Flash × Option Err)). is_ok x.1.1)
            (install-accepted connected tries h) in
        (λ k. (h, to (sym e ∙ k)), λ (h', s). e ∙ from s)
    | inr h ↦
        let e =
          ap (λ (x : UpdateBundle × (Flash × Option Err)). is_ok x.1.1)
            (install-rejected connected tries h) in
        (λ k. absurd (ground (arith, e, k)), λ (h', s). absurd (ground (arith, h, h')))
  ]

  -- An installation past the guard leaves no credentials in the bundle.
  pub install-clears :
      (connected : Option Err) (tries : ℕ → Try)
      → installable b ≡ true
      → ((install sha connected tries b).0.password ≡ [])
        × ((install sha connected tries b).0.ssid ≡ [])
  install-clears connected tries h =
      let e = install-accepted connected tries h in
      (
        ap (λ (x : UpdateBundle × (Flash × Option Err)). x.0.password) e,
        ap (λ (x : UpdateBundle × (Flash × Option Err)). x.0.ssid) e,
      )
