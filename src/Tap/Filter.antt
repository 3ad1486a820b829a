-- ===== src/Tap/Filter.antt =====
-- touchpour/components/tap_control/distance_filter.h: median of three and a moving average.
-- A float of the filter is a whole number of units of 2^-19 mm, as in `Sample`: its values lie in
-- [16, 2048) mm or are 0. The rounded step `value + 0.4f * (median - value)` is a parameter.
use keg_scale_espdisplay.Prelude.{
  ℕ, ◌+◌, ◌*◌, ◌/◌, ◌%◌, ◌^◌, min, max, Bool, not, ◌&&◌, ltb, ◌==◌, if◌then◌else◌, sub32,
}
pub mod Laws
pub mod Examples

pub record DistanceFilter : Type 0 where
  pub window_0 : ℕ
  pub window_1 : ℕ
  pub window_2 : ℕ
  pub count : ℕ
  pub next : ℕ
  pub value : ℕ
  pub last_at : ℕ

abbrev pub new_filter : DistanceFilter
new_filter = record {
  window_0 = 0;
  window_1 = 0;
  window_2 = 0;
  count = 0;
  next = 0;
  value = 0;
  last_at = 0;
}

unfoldable pub reset : DistanceFilter → DistanceFilter
reset f = record f { count = 0; next = 0; value = 0 }

abbrev pub unit_mm : ℕ
unit_mm = 2 ^ 19

-- The reading is written at the index of the window that is due.
unfoldable pub store : ℕ → DistanceFilter → DistanceFilter
store raw f =
    if f.next == 0
    then record f { window_0 = raw }
    else if f.next == 1
    then record f { window_1 = raw }
    else record f { window_2 = raw }

-- The new reading takes the oldest place.
unfoldable pub advance : ℕ → DistanceFilter → DistanceFilter
unfolding store
advance raw f = record (store raw f) { next = (f.next + 1) % 3; count = min (f.count + 1) 3 }

-- The middle of three after sorting.
unfoldable pub middle : ℕ → ℕ → ℕ → ℕ
middle a b c = max (min a b) (min (max a b) c)

-- `median`, from the first `count` entries of the window; twice the half-sum is the sum.
unfoldable pub median : DistanceFilter → ℕ
unfolding middle
median f =
    if f.count == 1
    then f.window_0 * unit_mm
    else if f.count == 2
    then (f.window_0 + f.window_1) * (unit_mm / 2)
    else middle f.window_0 f.window_1 f.window_2 * unit_mm

-- The new filter and the filtered distance; `ema value median` is the moving average.
-- The new value: the median itself for the first reading, the average after that.
unfoldable pub average : (ℕ → ℕ → ℕ) → DistanceFilter → ℕ
unfolding median
average ema f = if f.count == 1 then median f else ema f.value (median f)

-- The `reset` for a gap of more than `stale_ms`.
unfoldable pub drop_stale : ℕ → ℕ → DistanceFilter → DistanceFilter
unfolding reset sub32
drop_stale at stale_ms f =
    if not (f.count == 0) && ltb stale_ms (sub32 at f.last_at) then reset f else f

-- The new filter and the filtered distance; `ema value median` is the moving average.
unfoldable pub update : (ℕ → ℕ → ℕ) → ℕ → Bool → ℕ → ℕ → DistanceFilter → DistanceFilter × ℕ
unfolding reset advance average drop_stale
update ema raw valid at stale_ms f =
    if not valid
    then (reset f, 0)
    else let f' = advance raw (record (drop_stale at stale_ms f) { last_at = at }) in
      (record f' { value = average ema f' }, average ema f')
