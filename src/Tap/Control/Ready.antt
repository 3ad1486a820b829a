-- ===== src/Tap/Control/Ready.antt =====
-- control.h, `Control`: the steady readings that `ready` demands before the tap may open.
use keg_scale_espdisplay.Prelude.{
  ℕ, suc, ◌+◌, ◌≤◌, ◌<◌, min, ◌≡◌, ◌≢◌, ◌⊎◌, inl, Bool, true, false, ◌&&◌, List, [], ◌∷◌, arith,
  ltb, leb, if◌then◌else◌, length, sub32,
}
use keg_scale_espdisplay.Tap.Settings.{Settings, Sample, stable_distance}
use keg_scale_espdisplay.Tap.Control.{
  Control, reset_ready, stop, on_invalid, on_pouring, collect, on_idle, is_fresh, on_sample, update,
  start, run,
}

-- The band of the readings counted so far.
pub record Steady (c : Settings) (k : Control) : Type 0 where
  pub counted : k.count ≤ 5
  pub ordered : 0 < k.count → k.low ≤ k.high
  pub narrow : 0 < k.count → k.high ≤ k.low + c.stable_mm

module _ (c : Settings) (s : Sample) (now : ℕ) (k : Control) where
  collect-Steady : (d : ℕ) → Steady c k → Steady c (collect c d k)
  unfolding collect
  collect-Steady d v = ground arith

  on_idle-Steady : Steady c k → Steady c (on_idle c s k)
  unfolding on_idle
  on_idle-Steady v = ground arith

  update_other-Steady : k.pouring ≡ true → Steady c k → Steady c (update c s now k)
  unfolding update on_sample on_invalid on_pouring
  update_other-Steady p v = ground arith

-- A round keeps the invariant.
pub update-Steady :
    (c : Settings) (s : Sample) (now : ℕ) (k : Control) → Steady c k → Steady c (update c s now k)
unfolding update on_sample on_invalid
update-Steady c s now k v =
    ground (
      arith,
      on_idle-Steady c s now (record k { seen = s.sequence }),
      update_other-Steady c s now k,
    )

-- After any rounds at most five readings are counted, and the counted ones lie within `stable_mm`
-- of one another, if that held before.
pub run-Steady :
    (c : Settings) (es : List (Sample × ℕ)) (k : Control) → Steady c k → Steady c (run c es k)
unfolding run
run-Steady c [] k v = v
run-Steady c ((s, now) ∷ es) k v = run-Steady c es (update c s now k) (update-Steady c s now k v)

-- A reading that counts towards readiness.
unfoldable pub in_fill_range : Settings → Sample → ℕ → Bool
unfolding is_fresh
in_fill_range c s now =
    is_fresh c s now
    && ltb c.stop_mm (stable_distance s)
    && leb (stable_distance s) c.max_mm
    && ltb c.stop_mm s.mm
    && ltb (s.mm + 20) c.tray_mm

unfoldable pub good_readings : Settings → List (Sample × ℕ) → ℕ
good_readings c [] = 0
good_readings c ((s, now) ∷ es) =
    let rest = good_readings c es in if in_fill_range c s now then suc rest else rest

module _ (c : Settings) (s : Sample) (now : ℕ) (k : Control) where
  on_invalid-count : (on_invalid c s now k).count ≤ k.count
  unfolding on_invalid
  on_invalid-count = ground arith

  on_pouring-count : (on_pouring c s k).count ≤ k.count
  unfolding on_pouring stop reset_ready
  on_pouring-count = ground arith

  on_idle-count :
      is_fresh c s now ≡ true
      → (on_idle c s k).count ≤ (if in_fill_range c s now then suc k.count else k.count)
  unfolding on_idle in_fill_range
  on_idle-count f = ground arith

on_sample-count :
    (c : Settings) (s : Sample) (now : ℕ) (k : Control)
    → (on_sample c s now k).count ≤ (if in_fill_range c s now then suc k.count else k.count)
unfolding on_sample
on_sample-count c s now k =
    let k' = record k { seen = s.sequence } in
    ground
      (arith, on_invalid-count c s now k', on_pouring-count c s now k', on_idle-count c s now k')

update-count :
    (c : Settings) (s : Sample) (now : ℕ) (k : Control)
    → (update c s now k).count ≤ (if in_fill_range c s now then suc k.count else k.count)
unfolding update stop reset_ready
update-count c s now k = ground (arith, on_sample-count c s now k)

run-count :
    (c : Settings) (es : List (Sample × ℕ)) (k : Control)
    → (run c es k).count ≤ k.count + good_readings c es
unfolding run good_readings
run-count c [] k = omega arith
run-count c ((s, now) ∷ es) k =
    ground (arith, update-count c s now k, run-count c es (update c s now k))

-- From a state with no readings counted, the tap opens only if servo and distance are calibrated
-- and in at least five rounds the reading was fresh, above the cutoff and inside the fill range.
pub start-good_readings :
    (c : Settings) (es : List (Sample × ℕ)) (now : ℕ) (k : Control)
    → k.count ≡ 0
    → (start c now (run c es k)).1 ≡ true
    → (c.servo_calibrated ≡ true) × (c.distance_calibrated ≡ true) × (5 ≤ good_readings c es)
unfolding start
start-good_readings c es now k z h = ground (arith, run-count c es k)

-- A reading of five equal ones: new, fresh, in range, and soon after the one before.
abbrev pub Repeats : Settings → ℕ → Control → List (Sample × ℕ) → Type 0
Repeats c d k [] = Unit
Repeats c d k ((s, now) ∷ es) =
    (s.sequence ≢ k.seen)
    × (in_fill_range c s now ≡ true)
    × (stable_distance s ≡ d)
    × ((k.count ≡ 0) ⊎ (sub32 s.at k.last_valid ≤ c.stale_ms))
    × Repeats c d (update c s now k) es

-- The counted readings are all `d`.
abbrev Flat : ℕ → Control → Type 0
Flat d k = (k.pouring ≡ false) × ((k.count ≡ 0) ⊎ ((k.low ≡ d) × (k.high ≡ d)))

update-Flat :
    (c : Settings) (d : ℕ) (s : Sample) (now : ℕ) (k : Control)
    → Flat d k
    → s.sequence ≢ k.seen
    → in_fill_range c s now ≡ true
    → stable_distance s ≡ d
    → (k.count ≡ 0) ⊎ (sub32 s.at k.last_valid ≤ c.stale_ms)
    → Flat d (update c s now k)
      × ((update c s now k).count ≡ min (k.count + 1) 5)
      × ((update c s now k).last_valid ≡ s.at)
unfolding update on_sample on_idle in_fill_range
update-Flat c d s now k f n r e t = ground arith

run-Flat :
    (c : Settings) (d : ℕ) (es : List (Sample × ℕ)) (k : Control)
    → Flat d k
    → Repeats c d k es
    → k.count ≤ 5
    → Flat d (run c es k) × ((run c es k).count ≡ min (k.count + length es) 5)
unfolding run
run-Flat c d [] k f r b = (f, omega arith)
run-Flat c d ((s, now) ∷ es) k f (n, r, e, t, rest) b =
    let (f', n', _) = update-Flat c d s now k f n r e t in
    let (g, m) = run-Flat c d es (update c s now k) f' rest (omega arith) in (g, omega arith)

-- A calibrated closed tap opens after five or more rounds with new, fresh and equal readings in
-- the fill range that follow one another within `stale_ms`, if the last is not stale.
pub start_of_Repeats :
    (c : Settings) (d : ℕ) (es : List (Sample × ℕ)) (now : ℕ) (k : Control)
    → c.servo_calibrated ≡ true
    → c.distance_calibrated ≡ true
    → k.pouring ≡ false
    → k.count ≡ 0
    → Repeats c d k es
    → 5 ≤ length es
    → sub32 now (run c es k).last_valid ≤ c.stale_ms
    → ((start c now (run c es k)).1 ≡ true) × ((start c now (run c es k)).0.pouring ≡ true)
unfolding start
start_of_Repeats c d es now k a b p z r n f = ground (arith, run-Flat c d es k (p, inl z) r)
