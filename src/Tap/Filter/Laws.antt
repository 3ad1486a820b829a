-- ===== src/Tap/Filter/Laws.antt =====
-- distance_filter.h: the filtered distance stays among the readings, and one spike is rejected.
use keg_scale_espdisplay.Tap.Settings.{lround}
use keg_scale_espdisplay.Prelude.{ℕ, ◌*◌, ◌≤◌, ◌<◌, min, max, ◌≡◌, ◌≢◌, true, arith, sub32}
use keg_scale_espdisplay.Tap.Filter.{
  DistanceFilter, reset, unit_mm, store, advance, middle, median, average, drop_stale, update,
}

abbrev pub Within : ℕ → ℕ → ℕ → Type 0
Within lo hi x = (lo ≤ x) × (x ≤ hi)

-- The moving average lies between the old value and the median: IEEE rounding is monotone.
abbrev pub IsBetween : (ℕ → ℕ → ℕ) → Type 0
IsBetween ema = (v m : ℕ) → (min v m ≤ ema v m) × (ema v m ≤ max v m)

-- The entries in use, and the value, lie in the band.
pub record InBand (lo hi : ℕ) (f : DistanceFilter) : Type 0 where
  pub full : f.count ≤ 3
  pub slot : f.next < 3
  pub placed : f.count < 3 → f.next ≡ f.count
  pub first : 0 < f.count → Within lo hi f.window_0
  pub second : 1 < f.count → Within lo hi f.window_1
  pub third : 2 < f.count → Within lo hi f.window_2
  pub averaged : 0 < f.count → Within (lo * unit_mm) (hi * unit_mm) f.value

median-Within :
    (lo hi : ℕ) (f : DistanceFilter)
    → 0 < f.count
    → f.count ≤ 3
    → Within lo hi f.window_0
    → (1 < f.count → Within lo hi f.window_1)
    → (2 < f.count → Within lo hi f.window_2)
    → Within (lo * unit_mm) (hi * unit_mm) (median f)
unfolding median middle
median-Within lo hi f p q a b c = ground arith

-- What `update` leaves after it has stored a reading, before the average.
abbrev Stored : ℕ → ℕ → DistanceFilter → Type 0
Stored lo hi f =
    (0 < f.count)
    × (f.count ≤ 3)
    × (f.next < 3)
    × (f.count < 3 → f.next ≡ f.count)
    × Within lo hi f.window_0
    × (1 < f.count → Within lo hi f.window_1)
    × (2 < f.count → Within lo hi f.window_2)

advance-Stored :
    (lo hi raw : ℕ) (f : DistanceFilter)
    → InBand lo hi f
    → Within lo hi raw
    → Stored lo hi (advance raw f)
unfolding advance store
advance-Stored lo hi raw f v w = ground arith

average-Within :
    (ema : ℕ → ℕ → ℕ) (lo hi : ℕ) (f : DistanceFilter)
    → IsBetween ema
    → Stored lo hi f
    → (1 < f.count → Within (lo * unit_mm) (hi * unit_mm) f.value)
    → Within (lo * unit_mm) (hi * unit_mm) (average ema f)
unfolding average
average-Within ema lo hi f b s v =
    let (p, q, _, _, w₀, w₁, w₂) = s in
    let m = median-Within lo hi f p q w₀ w₁ w₂ in ground (arith, b f.value (median f))

drop_stale-InBand :
    (lo hi at stale_ms : ℕ) (f : DistanceFilter)
    → InBand lo hi f
    → InBand lo hi (record (drop_stale at stale_ms f) { last_at = at })
unfolding drop_stale reset
drop_stale-InBand lo hi at stale_ms f v = ground arith

advance-value :
    (lo hi raw : ℕ) (f : DistanceFilter)
    → InBand lo hi f
    → 1 < (advance raw f).count
    → Within (lo * unit_mm) (hi * unit_mm) (advance raw f).value
unfolding advance store
advance-value lo hi raw f v h = ground arith

set_value-InBand :
    (lo hi v : ℕ) (f : DistanceFilter)
    → Stored lo hi f
    → Within (lo * unit_mm) (hi * unit_mm) v
    → InBand lo hi (record f { value = v })
set_value-InBand lo hi v f (_, q, n, p, w₀, w₁, w₂) r = record {
  full = q;
  slot = n;
  placed = p;
  first = λ _. w₀;
  second = w₁;
  third = w₂;
  averaged = λ _. r;
}

-- A reading in a band keeps the filter in the band, and its result lies in the band too, so the
-- rounded distance does.
pub update-InBand :
    (ema : ℕ → ℕ → ℕ) (lo hi raw at stale_ms : ℕ) (f : DistanceFilter)
    → IsBetween ema
    → InBand lo hi f
    → Within lo hi raw
    → let (f', filtered) = update ema raw true at stale_ms f in
      InBand lo hi f'
      × Within (lo * unit_mm) (hi * unit_mm) filtered
      × Within lo hi (lround filtered)
unfolding update lround
update-InBand ema lo hi raw at stale_ms f b v w =
    let f₁ = record (drop_stale at stale_ms f) { last_at = at } in
    let v₁ = drop_stale-InBand lo hi at stale_ms f v in
    let s = advance-Stored lo hi raw f₁ v₁ w in
    let r = average-Within ema lo hi (advance raw f₁) b s (advance-value lo hi raw f₁ v₁) in
    (set_value-InBand lo hi (average ema (advance raw f₁)) (advance raw f₁) s r, r, omega arith)

-- The two entries that the next reading leaves in the window.
abbrev pub OthersWithin : ℕ → ℕ → DistanceFilter → Type 0
OthersWithin lo hi f =
    (f.next ≢ 0 → Within lo hi f.window_0)
    × (f.next ≢ 1 → Within lo hi f.window_1)
    × (f.next ≢ 2 → Within lo hi f.window_2)

advance_spike :
    (lo hi raw : ℕ) (f : DistanceFilter)
    → f.count ≡ 3
    → f.next < 3
    → OthersWithin lo hi f
    → Within (lo * unit_mm) (hi * unit_mm) (median (advance raw f))
      × ((advance raw f).value ≡ f.value)
      × ((advance raw f).count ≡ 3)
unfolding advance store median middle
advance_spike lo hi raw f c n o = (ground arith, ground arith, ground arith)

-- With a full window and no gap, one reading of any size does not move the result out of the band
-- of the two readings before it and of the value.
pub update_spike :
    (ema : ℕ → ℕ → ℕ) (lo hi raw at stale_ms : ℕ) (f : DistanceFilter)
    → IsBetween ema
    → f.count ≡ 3
    → f.next < 3
    → sub32 at f.last_at ≤ stale_ms
    → OthersWithin lo hi f
    → Within (lo * unit_mm) (hi * unit_mm) f.value
    → Within lo hi (lround (update ema raw true at stale_ms f).1)
unfolding update lround drop_stale average
update_spike ema lo hi raw at stale_ms f b c n t o v =
    let f₁ = record f { last_at = at } in
    let (m, e, k) = advance_spike lo hi raw f₁ c n o in
    ground (arith, b f.value (median (advance raw f₁)))
