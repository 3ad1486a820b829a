-- ===== src/Touchscreen/Agreement/Laws.antt =====
-- controller_link.c: two ends agree on the same key, and the ephemeral key is gone afterwards.
use keg_scale_espdisplay.Prelude.{
  ℕ, ◌≡◌, refl, ap, inl, inr, Option, none, some, List, ◌++◌, arith, ◌==◌, Bool-cases, length,
}
use keg_scale_espdisplay.Esp.{Err}
use keg_scale_espdisplay.Touchscreen.Hex.{cl_unhex}
use keg_scale_espdisplay.Touchscreen.Link.{Link, Psa}
use keg_scale_espdisplay.Touchscreen.Agreement.{
  KeyStore, coded, mastered, agreed, agree_with, cl_agree,
}

coded-link : (s : Link) (d : Option (List ℕ)) → (coded s d).0 ≡ s
coded-link s none = refl
coded-link s (some d) = refl

mastered-ephemeral :
    (psa : Psa) (s : Link) (m : Option (List ℕ)) → (mastered psa s m).0.ephemeral ≡ s.ephemeral
mastered-ephemeral psa s none = refl
mastered-ephemeral psa s (some m) =
    ap (λ (t : Link). t.ephemeral) (coded-link (record s { master = m }) (psa.hash m))

agreed-ephemeral :
    (psa : Psa) (s : Link) (v c : List ℕ) (shared : Option (List ℕ))
    → (agreed psa s v c shared).0.ephemeral ≡ s.ephemeral
agreed-ephemeral psa s v c none = refl
agreed-ephemeral psa s v c (some shared) =
    ground (arith, mastered-ephemeral psa s (psa.hash (shared ++ v ++ c)))

agree_with-ephemeral :
    (psa : Psa) (k : KeyStore) (s : Link) (p v c : Option (List ℕ))
    → (agree_with psa k s p v c).0.ephemeral ≡ 0
agree_with-ephemeral psa k s none v c = refl
agree_with-ephemeral psa k s (some p) none c = refl
agree_with-ephemeral psa k s (some p) (some v) none = refl
agree_with-ephemeral psa k s (some p) (some v) (some c) =
    agreed-ephemeral psa (record s { ephemeral = 0 }) v c (k.agree s.ephemeral p)

-- Whatever the keys and the key store give, no ephemeral key is left after an agreement.
cl_agree-ephemeral :
    (psa : Psa) (k : KeyStore) (peer server client : List ℕ) (s : Link)
    → (cl_agree psa k peer server client s).0.ephemeral ≡ 0
unfolding cl_agree
cl_agree-ephemeral psa k peer server client s =
    agree_with-ephemeral psa k s (cl_unhex peer 65) (cl_unhex server 65) (cl_unhex client 65)

-- What two ends have in common after an agreement: the result and the code, and the key where the
-- result is ESP_OK.
abbrev pub SameKey : Link × (Option Err × List ℕ) → Link × (Option Err × List ℕ) → Type 0
SameKey x y = (x.1 ≡ y.1) × (x.1.0 ≡ none → x.0.master ≡ y.0.master)

coded-SameKey :
    (s t : Link) (d : Option (List ℕ)) → s.master ≡ t.master → SameKey (coded s d) (coded t d)
coded-SameKey s t none h = (refl, λ e. h)
coded-SameKey s t (some d) h = (refl, λ e. h)

mastered-SameKey :
    (psa : Psa) (s t : Link) (m : Option (List ℕ)) → SameKey (mastered psa s m) (mastered psa t m)
mastered-SameKey psa s t none = (refl, λ e. absurd (ground (arith, e)))
mastered-SameKey psa s t (some m) =
    coded-SameKey (record s { master = m }) (record t { master = m }) (psa.hash m) refl

agreed-SameKey :
    (psa : Psa) (s t : Link) (v c : List ℕ) (shared : Option (List ℕ))
    → SameKey (agreed psa s v c shared) (agreed psa t v c shared)
agreed-SameKey psa s t v c none = (refl, λ e. absurd (ground (arith, e)))
agreed-SameKey psa s t v c (some shared) = elim (Bool-cases (length shared == 32)) [
  | inl e ↦ rw e (mastered-SameKey psa s t (psa.hash (shared ++ v ++ c)))
  | inr e ↦ rw e (refl, λ f. absurd (ground (arith, f)))
]

-- Two ends whose public keys are the texts of 65 bytes and whose key stores give the same shared
-- secret, each with its own key and the other's public key, get the same result and show the same
-- code, and where the result is ESP_OK they have the same key.
pub cl_agree-SameKey :
    (psa : Psa) (k m : KeyStore) (server client : List ℕ) (v c : List ℕ) (s t : Link)
    → cl_unhex server 65 ≡ some v
    → cl_unhex client 65 ≡ some c
    → k.agree s.ephemeral c ≡ m.agree t.ephemeral v
    → SameKey (cl_agree psa k client server client s) (cl_agree psa m server server client t)
unfolding cl_agree
cl_agree-SameKey psa k m server client v c s t hv hc shared = rw hv (
    rw hc (
      rw shared (
        agreed-SameKey psa (record s { ephemeral = 0 }) (record t { ephemeral = 0 }) v c
          (m.agree t.ephemeral v))))
