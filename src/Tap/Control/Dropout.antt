-- ===== src/Tap/Control/Dropout.antt =====
-- control.h, `Control`: the no-return reading that is forgiven as the servo opens.
use keg_scale_espdisplay.Prelude.{
  ℕ, suc, ◌+◌, ◌≤◌, ◌≡◌, Bool, true, not, ◌&&◌, List, [], ◌∷◌, arith, ◌==◌, if◌then◌else◌,
}
use keg_scale_espdisplay.Tap.Settings.{Settings, Sample}
use keg_scale_espdisplay.Tap.Control.Safety.{run-pouring}
use keg_scale_espdisplay.Tap.Control.{
  Control, reset_ready, stop, on_invalid, on_pouring, collect, on_idle, is_fresh, on_sample, update,
  run,
}

-- A round brings a sample that is new and not a fresh valid one.
unfoldable pub is_miss : Settings → Sample → ℕ → Control → Bool
is_miss c s now k = not (s.sequence == k.seen) && not (is_fresh c s now)

unfoldable pub misses : Settings → List (Sample × ℕ) → Control → ℕ
misses c [] k = 0
misses c ((s, now) ∷ es) k =
    let rest = misses c es (update c s now k) in if is_miss c s now k then suc rest else rest

used : Control → ℕ
used k = if k.startup_dropout_used then 1 else 0

update-used :
    (c : Settings) (s : Sample) (now : ℕ) (k : Control)
    → (update c s now k).pouring ≡ true
    → (if is_miss c s now k then suc (used k) else used k) ≤ used (update c s now k)
unfolding update on_sample on_invalid on_pouring on_idle collect stop reset_ready is_miss used
update-used c s now k h = ground arith

run-used :
    (c : Settings) (es : List (Sample × ℕ)) (k : Control)
    → (run c es k).pouring ≡ true
    → used k + misses c es k ≤ used (run c es k)
unfolding run misses
run-used c [] k h = omega arith
run-used c ((s, now) ∷ es) k h =
    let rest = run-used c es (update c s now k) h in
    let (p, _) = run-pouring c es (update c s now k) h in ground (arith, update-used c s now k p)

-- A pour that is still open after any rounds has seen at most one new sample that was invalid or
-- stale, and none if its one dropout was already used.
pub misses-le :
    (c : Settings) (es : List (Sample × ℕ)) (k : Control)
    → (run c es k).pouring ≡ true
    → (misses c es k ≤ 1) × (k.startup_dropout_used ≡ true → misses c es k ≡ 0)
unfolding used
misses-le c es k h = (ground (arith, run-used c es k), ground (arith, run-used c es k))
