-- ===== src/Epaper/TouchWake/Touches.antt =====
-- touch_wake.c: which readings the waits and the measurements of a calibration have used.
use keg_scale_espdisplay.Prelude.{
  ℕ, zero, suc, ◌+◌, ◌-◌, ◌≤◌, ◌<◌, ◌≡◌, refl, sym, ap, ◌∙◌, subst, inl, inr, Bool, true, false,
  Option, none, List, [], ◌∷◌, ◌++◌, arith, length, append_assoc, add32,
}
use keg_scale_espdisplay.Epaper.TouchWake.Sampling.{
  read_touch_value, Reading-cases, read_samples, report_progress, look, wait_from, ms_to_ticks,
  wait_for_state,
}
use keg_scale_espdisplay.Epaper.TouchWake.Waiting.{
  wait_for_state-rounds, IsMatch, Recent, wait_from-Continues, wait_for_state-Recent,
}
use keg_scale_espdisplay.Epaper.TouchWake.Calibrate.{action_timeout_ms, wait_if_reported}
use keg_scale_espdisplay.Epaper.TouchWake.{value, Driver, World}
use keg_scale_espdisplay.Esp.{Err, and_then-ran}

-- After the reading `from` and at least three more, the last three before `to` match.
abbrev pub Saw : Driver → ℕ → Bool → ℕ → ℕ → Type 0
Saw d threshold touched from to =
    (from + 3 ≤ to) × ((k : ℕ) → k < 3 → IsMatch threshold touched (d.readings (to - suc k)))

-- A touch down to the level `wake`, and after it a release up to the level `free`.
abbrev pub Tap : Driver → ℕ → ℕ → ℕ → ℕ → Type 0
Tap d wake free from to = (mid : ℕ) × Saw d wake true from mid × Saw d free false mid to

-- The values are those of the readings from the number `i` on.
abbrev pub ReadFrom : Driver → ℕ → List ℕ → Type 0
ReadFrom d i [] = Unit
ReadFrom d i (x ∷ xs) = (d.readings i ≡ value x) × ReadFrom d (i + 1) xs

module _ (d : Driver) (threshold : ℕ) (touched : Bool) where
  wait_from-read :
      (deadline n c : ℕ) (w : World)
      → (wait_from d threshold touched deadline n c w).1 ≡ none
      → w.read + 3 ≤ (wait_from d threshold touched deadline n c w).0.read + c
  unfolding wait_from
  wait_from-read deadline zero c w h = absurd (ground (arith, h))
  wait_from-read deadline (suc n) c w h =
      let u = (read_touch_value d (look d w).0).0 in
      let (v, e, next) = wait_from-Continues d threshold touched deadline n c w h in
      let again = wait_from-read deadline n (c + 1) u in
      let anew = wait_from-read deadline n 0 u in
      elim next [
        | inl (m, l, done) ↦ rw done (omega (arith, l))
        | inr (inl (m, l, continues)) ↦
            subst (λ (x : World × Option Err). x.1 ≡ none → w.read + 3 ≤ x.0.read + c)
              (sym continues) (λ k. omega (arith, again k)) h
        | inr (inr continues) ↦
            subst (λ (x : World × Option Err). x.1 ≡ none → w.read + 3 ≤ x.0.read + c)
              (sym continues) (λ k. omega (arith, anew k)) h
      ]

  wait_for_state-read :
      (timeout_ms : ℕ) (w : World)
      → (wait_for_state d threshold touched timeout_ms w).1 ≡ none
      → w.read + 3 ≤ (wait_for_state d threshold touched timeout_ms w).0.read
  wait_for_state-read timeout_ms w h =
      let ticks = ms_to_ticks d timeout_ms in
      let deadline = add32 (d.ticks w.looked) ticks in
      subst (λ (x : World × Option Err). x.1 ≡ none → w.read + 3 ≤ x.0.read)
        (sym (wait_for_state-rounds d threshold touched timeout_ms w))
        (λ k. let l = wait_from-read deadline (suc ticks) 0 (look d w).0 k in omega (arith, l)) h

  -- A wait that succeeds has seen what it waits for.
  pub wait_if_reported-Saw :
      (v w : World)
      → wait_if_reported d threshold touched (report_progress d v) ≡ (w, none)
      → Saw d threshold touched v.read w.read
  unfolding report_progress
  wait_if_reported-Saw v w h =
      let wait = λ (u : World). wait_for_state d threshold touched action_timeout_ms u in
      let (u, e, waits) = and_then-ran (report_progress d v) wait w h in
      let kept : u.read ≡ v.read = ap (λ (x : World × Option Err). x.0.read) (sym e) in
      let ok : (wait u).1 ≡ none = ap (λ (x : World × Option Err). x.1) waits in
      let at : (wait u).0 ≡ w = ap (λ (x : World × Option Err). x.0) waits in
      let l = wait_for_state-read action_timeout_ms u ok in
      let seen = wait_for_state-Recent d threshold touched action_timeout_ms u ok in
      (
        omega (arith, l, kept, ap (λ (x : World). x.read) at),
        subst (λ (x : World). Recent d threshold touched 3 x) at seen,
      )

append_nil : (xs : List ℕ) → xs ++ [] ≡ xs
append_nil [] = refl
append_nil (x ∷ xs) = ap (λ ys. x ∷ ys) (append_nil xs)

-- What `read_samples` adds to the samples: `n` readings in a row.
pub read_samples-ran :
    (d : Driver) (n : ℕ) (samples ys : List ℕ) (w u : World)
    → read_samples d n samples w ≡ ((u, ys), none)
    → (xs : List ℕ) × (ys ≡ samples ++ xs)
      × (length xs ≡ n)
      × ReadFrom d w.read xs
      × (u.read ≡ w.read + n)
unfolding read_samples
read_samples-ran d zero samples ys w u h = (
  [],
  ap (λ (x : (World × List ℕ) × Option Err). x.0.1) (sym h) ∙ sym (append_nil samples),
  refl,
  tt,
  ap (λ (x : (World × List ℕ) × Option Err). x.0.0.read) (sym h) ∙ omega arith,
)
read_samples-ran d (suc n) samples ys w u h = elim (Reading-cases (d.readings w.read)) [
  | inl (v, e) ↦
      let w₁ = (read_touch_value d w).0 in
      let step : read_samples d n (samples ++ v ∷ []) w₁ ≡ ((u, ys), none) = rw e at h in
      let (xs, a, l, r, k) = read_samples-ran d n (samples ++ v ∷ []) ys w₁ u step in
      (v ∷ xs, a ∙ append_assoc samples (v ∷ []) xs, omega (arith, l), (e, r), omega (arith, k))
  | inr (x, e) ↦ absurd (ground (arith, e, h))
]
