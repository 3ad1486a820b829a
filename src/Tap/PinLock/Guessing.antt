-- ===== src/Tap/PinLock/Guessing.antt =====
-- pin_lock.cpp: how many PINs can be compared in half a minute.
use keg_scale_espdisplay.Prelude.{
  ℕ, ◌+◌, ◌^◌, ◌≤◌, ◌<◌, ◌≡◌, refl, ◌∙◌, ◌⊎◌, inl, inr, Bool, true, false, ◌&&◌, Option, List, [],
  ◌∷◌, arith, ◌==◌, if◌then◌else◌, sub32, sub32_of_le,
}
use keg_scale_espdisplay.Tap.PinLock.{
  digest, PinLock, cooldown_ms, digest_input, retry_seconds, matches, attempt, check,
}

module _ (sha : List ℕ → Option (List ℕ)) where
  -- A check that reaches the comparison.
  abbrev pub compares : ℕ → PinLock → Bool
  compares now s = s.storage_ok && (retry_seconds now s).1 == 0

  unfoldable pub tries : List (List ℕ × ℕ) → PinLock → ℕ
  tries [] s = 0
  tries ((pin, now) ∷ es) s = (if compares now s then 1 else 0) + tries es (check sha pin now s).0

  -- Wrong guesses at times that do not fall and stay below a bound.
  abbrev pub Guesses : PinLock → ℕ → ℕ → List (List ℕ × ℕ) → Type 0
  Guesses s lo hi [] = Unit
  Guesses s lo hi ((pin, now) ∷ es) =
      (matches sha s pin ≡ false) × (lo ≤ now) × (now < hi) × Guesses s now hi es

  -- What is known of the lock between two guesses since the time `t`.
  abbrev Guarded : PinLock → ℕ → ℕ → PinLock → Type 0
  Guarded s₀ t lo s =
      (s.saved ≡ s₀.saved)
      × (s.enabled ≡ s₀.enabled)
      × (((s.cooling ≡ false) × (s.failures < 5))
          ⊎ ((s.cooling ≡ true) × (s.failures ≡ 5) × (t ≤ s.failed_at) × (s.failed_at ≤ lo)))

  matches_same :
      (s₀ s : PinLock) (pin : List ℕ)
      → s.saved ≡ s₀.saved
      → s.enabled ≡ s₀.enabled
      → matches sha s pin ≡ matches sha s₀ pin
  unfolding matches digest digest_input
  matches_same s₀ s pin e f = rw (e, f) refl

  check-Guarded :
      (s₀ s : PinLock) (t lo now : ℕ) (pin : List ℕ)
      → Guarded s₀ t lo s
      → t ≤ lo
      → t + cooldown_ms ≤ 2 ^ 32
      → matches sha s pin ≡ false
      → lo ≤ now
      → now < t + cooldown_ms
      → Guarded s₀ t now (check sha pin now s).0
        × ((if compares now s then 1 else 0) + s.failures ≤ (check sha pin now s).0.failures)
  unfolding check retry_seconds attempt
  check-Guarded s₀ s t lo now pin (a, b, inl (c, f)) l w m x y = (ground arith, ground arith)
  check-Guarded s₀ s t lo now pin (a, b, inr (c, f, g, k)) l w m x y =
      let e : sub32 now s.failed_at < cooldown_ms = omega (arith, sub32_of_le now s.failed_at) in
      (ground arith, ground arith)

  tries-Guarded :
      (es : List (List ℕ × ℕ)) (s₀ s : PinLock) (t lo : ℕ)
      → Guarded s₀ t lo s
      → t ≤ lo
      → t + cooldown_ms ≤ 2 ^ 32
      → Guesses s₀ lo (t + cooldown_ms) es
      → tries es s + s.failures ≤ 5
  unfolding tries
  tries-Guarded [] s₀ s t lo (a, b, g) l w h = ground arith
  tries-Guarded ((pin, now) ∷ es) s₀ s t lo (a, b, g) l w (m, x, y, rest) =
      let (v, d) =
        check-Guarded s₀ s t lo now pin (a, b, g) l w (matches_same s₀ s pin a b ∙ m) x y in
      omega (arith, d, tries-Guarded es s₀ (check sha pin now s).0 t now v (omega arith) w rest)

  -- Wrong PINs given in any 30 seconds (without a wrap of the clock) to a lock that is not cooling
  -- down are compared at most five times, less the failures already counted.
  pub tries-le :
      (es : List (List ℕ × ℕ)) (s : PinLock) (t : ℕ)
      → s.cooling ≡ false
      → s.failures < 5
      → t + cooldown_ms ≤ 2 ^ 32
      → Guesses s t (t + cooldown_ms) es
      → tries es s + s.failures ≤ 5
  tries-le es s t c f w h = tries-Guarded es s s t t (refl, refl, inl (c, f)) (omega arith) w h
