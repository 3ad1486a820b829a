-- ===== src/Epaper/TouchWake/Sampling.antt =====
-- touch_wake.c: the readings of the calibration, their mean, and the wait for a touch or a release.
use keg_scale_espdisplay.Prelude.{
  ℕ, zero, suc, ◌+◌, ◌-◌, ◌*◌, ◌/◌, ◌%◌, ◌^◌, ◌≡◌, refl, ◌⊎◌, inl, inr, Bool, not, ◌&&◌, Option,
  none, some, List, [], ◌∷◌, ◌++◌, ltb, leb, ◌==◌, if◌then◌else◌, length, take, sub32, add32,
  is_neg32,
}
use keg_scale_espdisplay.Esp.{Err, timeout}
use keg_scale_espdisplay.Epaper.TouchWake.{Reading, value, unread, Driver, World}

-- The value where there is one, and the world with the reading counted.
abbrev pub read_touch_value : Driver → World → World × Reading
read_touch_value d w = (record w { read = w.read + 1 }, d.readings w.read)

pub Reading-cases : (r : Reading) → ((v : ℕ) × (r ≡ value v)) ⊎ ((e : Err) × (r ≡ unread e))
Reading-cases (value v) = inl (v, refl)
Reading-cases (unread e) = inr (e, refl)

-- `n` readings in a row, to the first error.
unfoldable pub read_samples : Driver → ℕ → List ℕ → World → (World × List ℕ) × Option Err
read_samples d zero samples w = ((w, samples), none)
read_samples d (suc n) samples w =
    let (w₁, r) = read_touch_value d w in
    elim r [
      | unread e ↦ ((w₁, samples), some e)
      | value v ↦ read_samples d n (samples ++ v ∷ []) w₁
    ]

-- The inner loop, on the sorted values before the value, the last one first.
abbrev pub sink : ℕ → List ℕ → List ℕ
sink v [] = v ∷ []
sink v (p ∷ before) = let rest = sink v before in if ltb v p then p ∷ rest else v ∷ p ∷ before

-- The outer loop: the values that remain, and the sorted ones, the last one first.
abbrev pub sink_all : List ℕ → List ℕ → List ℕ
sink_all [] sorted = sorted
sink_all (v ∷ values) sorted = sink_all values (sink v sorted)

abbrev pub reversed : List ℕ → List ℕ → List ℕ
reversed [] ys = ys
reversed (x ∷ xs) ys = reversed xs (x ∷ ys)

abbrev pub drop : ℕ → List ℕ → List ℕ
drop zero xs = xs
drop (suc n) [] = []
drop (suc n) (x ∷ xs) = drop n xs

abbrev pub sum : List ℕ → ℕ
sum [] = 0
sum (x ∷ xs) = x + sum xs

pub record Trimmed : Type 0 where
  pub minimum : ℕ
  pub maximum : ℕ
  pub mean : ℕ

abbrev pub first_or_zero : List ℕ → ℕ
first_or_zero [] = 0
first_or_zero (x ∷ xs) = x

-- The number of the smallest and of the largest values that are left out.
unfoldable pub trim_of : ℕ → ℕ
trim_of count = if leb 8 count then count / 8 else 0

unfoldable pub trimmed_mean : List ℕ → Trimmed
unfolding trim_of
trimmed_mean values =
    let descending = sink_all values [] in
    let sorted = reversed descending [] in
    let count = length values in
    let trim = trim_of count in
    record {
      minimum = first_or_zero sorted;
      maximum = first_or_zero descending;
      mean = sum (take (count - trim * 2) (drop trim sorted)) / (count - trim * 2) % 2 ^ 32;
    }

-- The callback, which is never absent, and the call counted.
unfoldable pub report_progress : Driver → World → World × Option Err
report_progress d w = (record w { reported = w.reported + 1 }, d.progress w.reported)

abbrev pub look : Driver → World → World × ℕ
look d w = (record w { looked = w.looked + 1 }, d.ticks w.looked)

unfoldable pub matches : ℕ → Bool → ℕ → Bool
matches threshold touched v = if touched then leb v threshold else leb threshold v

-- (int32_t)(deadline - now) > 0.
unfoldable pub before_deadline : ℕ → ℕ → Bool
unfolding sub32 is_neg32
before_deadline deadline now =
    let left = sub32 deadline now in not (left == 0) && not (is_neg32 left)

-- The loop, with the matching readings in a row so far; out of fuel counts as the deadline.
unfoldable pub wait_from : Driver → ℕ → Bool → ℕ → ℕ → ℕ → World → World × Option Err
unfolding before_deadline matches
wait_from d threshold touched deadline zero consecutive w = (w, some timeout)
wait_from d threshold touched deadline (suc fuel) consecutive w =
    let (w₁, now) = look d w in
    let (w₂, r) = read_touch_value d w₁ in
    if before_deadline deadline now
    then elim r [
      | unread e ↦ (w₂, some e)
      | value v ↦
          let again = wait_from d threshold touched deadline fuel (consecutive + 1) w₂ in
          let anew = wait_from d threshold touched deadline fuel 0 w₂ in
          if matches threshold touched v
          then if leb 3 (consecutive + 1) then (w₂, none) else again
          else anew
    ]
    else (w₁, some timeout)

-- `pdMS_TO_TICKS`, whose product wraps at 32 bits.
abbrev pub ms_to_ticks : Driver → ℕ → ℕ
ms_to_ticks d ms = ms * d.hz % 2 ^ 32 / 1000

-- A round for every tick until the deadline, and one more.
unfoldable pub wait_for_state : Driver → ℕ → Bool → ℕ → World → World × Option Err
unfolding wait_from
wait_for_state d threshold touched timeout_ms w =
    let (w₁, now) = look d w in
    wait_from d threshold touched (add32 now (ms_to_ticks d timeout_ms))
      (suc (ms_to_ticks d timeout_ms)) 0 w₁
