-- ===== src/Epaper/TouchWake/Mean.antt =====
-- touch_wake.c, `trimmed_mean`: the values it gives lie between those that it was given.
use keg_scale_espdisplay.Prelude.{
  ℕ, zero, suc, ◌+◌, ◌-◌, ◌*◌, ◌/◌, ◌%◌, ◌^◌, ◌≤◌, ◌<◌, ◌≡◌, refl, subst, ◌↔◌, inl, inr, List, [],
  ◌∷◌, arith, ltb, Bool-cases, length, take, All, All-map,
}
use keg_scale_espdisplay.Epaper.TouchWake.Sampling.{
  sink, sink_all, reversed, drop, sum, first_or_zero, trim_of, trimmed_mean,
}

-- Every value is at least those after it.
abbrev Descending : List ℕ → Type 0
Descending [] = Unit
Descending (x ∷ xs) = All (λ y. y ≤ x) xs × Descending xs

abbrev Between : ℕ → ℕ → ℕ → Type 0
Between low high x = (low ≤ x) × (x ≤ high)

sink-All : (P : ℕ → Type 0) (v : ℕ) (xs : List ℕ) → (P v × All P xs) ↔ All P (sink v xs)
sink-All P v [] = (λ h. h, λ h. h)
sink-All P v (x ∷ xs) = ground (arith, sink-All P v xs)

sink_all-All : (P : ℕ → Type 0) (vs xs : List ℕ) → (All P vs × All P xs) ↔ All P (sink_all vs xs)
sink_all-All P [] xs = (λ h. h.1, λ h. (tt, h))
sink_all-All P (v ∷ vs) xs = ground (arith, sink-All P v xs, sink_all-All P vs (sink v xs))

All-below : (v x : ℕ) (xs : List ℕ) → v ≤ x → All (λ y. y ≤ v) xs → All (λ y. y ≤ x) xs
All-below v x xs h = All-map (λ y. y ≤ v) (λ y. y ≤ x) xs (λ y k. omega (arith, k, h))

sink-Descending : (v : ℕ) (xs : List ℕ) → Descending xs → Descending (sink v xs)
sink-Descending v [] h = (tt, tt)
sink-Descending v (x ∷ xs) h = elim (Bool-cases (ltb v x)) [
  | inl l ↦ rw l ((sink-All (λ y. y ≤ x) v xs).0 (ground (arith, l), h.0), sink-Descending v xs h.1)
  | inr l ↦ let le : x ≤ v = ground (arith, l) in rw l ((le, All-below x v xs le h.0), h)
]

sink_all-Descending : (vs xs : List ℕ) → Descending xs → Descending (sink_all vs xs)
sink_all-Descending [] xs h = h
sink_all-Descending (v ∷ vs) xs h = sink_all-Descending vs (sink v xs) (sink-Descending v xs h)

reversed-All : (P : ℕ → Type 0) (xs ys : List ℕ) → All P xs → All P ys → All P (reversed xs ys)
reversed-All P [] ys h k = k
reversed-All P (x ∷ xs) ys h k = reversed-All P xs (x ∷ ys) h.1 (h.0, k)

length-reversed : (xs ys : List ℕ) → length (reversed xs ys) ≡ length xs + length ys
length-reversed [] ys = omega arith
length-reversed (x ∷ xs) ys = omega (arith, length-reversed xs (x ∷ ys))

length-sink : (v : ℕ) (xs : List ℕ) → length (sink v xs) ≡ suc (length xs)
length-sink v [] = refl
length-sink v (x ∷ xs) = ground (arith, length-sink v xs)

length-sink_all : (vs xs : List ℕ) → length (sink_all vs xs) ≡ length vs + length xs
length-sink_all [] xs = omega arith
length-sink_all (v ∷ vs) xs = omega (arith, length-sink_all vs (sink v xs), length-sink v xs)

take-All : (P : ℕ → Type 0) (n : ℕ) (xs : List ℕ) → All P xs → All P (take n xs)
take-All P zero xs h = tt
take-All P (suc n) [] h = tt
take-All P (suc n) (x ∷ xs) h = (h.0, take-All P n xs h.1)

drop-All : (P : ℕ → Type 0) (n : ℕ) (xs : List ℕ) → All P xs → All P (drop n xs)
drop-All P zero xs h = h
drop-All P (suc n) [] h = tt
drop-All P (suc n) (x ∷ xs) h = drop-All P n xs h.1

length-take : (n : ℕ) (xs : List ℕ) → n ≤ length xs → length (take n xs) ≡ n
length-take zero xs h = refl
length-take (suc n) [] h = absurd (omega (arith, h))
length-take (suc n) (x ∷ xs) h = omega (arith, length-take n xs (omega (arith, h)))

length-drop : (n : ℕ) (xs : List ℕ) → length (drop n xs) ≡ length xs - n
length-drop zero xs = omega arith
length-drop (suc n) [] = omega arith
length-drop (suc n) (x ∷ xs) = omega (arith, length-drop n xs)

sum-Between :
    (low high : ℕ) (xs : List ℕ)
    → All (Between low high) xs
    → (low * length xs ≤ sum xs) × (sum xs ≤ high * length xs)
sum-Between low high [] h = (omega arith, omega arith)
sum-Between low high (x ∷ xs) h =
    let (l, u) = sum-Between low high xs h.1 in (omega (arith, l, h), omega (arith, u, h))

div-Between : (low high n s : ℕ) → 0 < n → low * n ≤ s → s ≤ high * n → Between low high (s / n)
div-Between low high n s p h k = (grind (arith, h), grind (arith, k))

-- The first value of a descending list is the largest, and the last one the smallest.
top : (xs : List ℕ) → Descending xs → All (λ x. x ≤ first_or_zero xs) xs
top [] h = tt
top (x ∷ xs) h = (omega arith, h.0)

bottom : (xs ys : List ℕ) → Descending xs → All (λ x. first_or_zero (reversed xs ys) ≤ x) xs
bottom [] ys h = tt
bottom (x ∷ []) ys h = (omega arith, tt)
bottom (x ∷ y ∷ xs) ys h =
    let rest = bottom (y ∷ xs) (x ∷ ys) h.1 in (omega (arith, rest.0, h.0.0), rest)

All-both : (P Q : ℕ → Type 0) (xs : List ℕ) → All P xs → All Q xs → All (λ x. P x × Q x) xs
All-both P Q [] h k = tt
All-both P Q (x ∷ xs) h k = ((h.0, k.0), All-both P Q xs h.1 k.1)

All-first : (P : ℕ → Type 0) (xs : List ℕ) → All P xs → 0 < length xs → P (first_or_zero xs)
All-first P [] h l = absurd (omega (arith, l))
All-first P (x ∷ xs) h l = h.0

trim-lt : (n : ℕ) → 0 < n → trim_of n * 2 < n
unfolding trim_of
trim-lt n h = ground (arith, h)

-- The values given are between the minimum and the maximum that `trimmed_mean` reports.
samples-Between :
    (values : List ℕ)
    → All (Between (trimmed_mean values).minimum (trimmed_mean values).maximum) (sink_all values [])
unfolding trimmed_mean
samples-Between values =
    let xs = sink_all values [] in
    let h = sink_all-Descending values [] tt in
    All-both (λ x. first_or_zero (reversed xs []) ≤ x) (λ x. x ≤ first_or_zero xs) xs
      (bottom xs [] h) (top xs h)

mean-slice :
    (values : List ℕ)
    → let sorted = reversed (sink_all values []) [] in
      let left = length values - trim_of (length values) * 2 in
      (trimmed_mean values).mean
      ≡ sum (take left (drop (trim_of (length values)) sorted)) / left % 2 ^ 32
unfolding trimmed_mean
mean-slice values = refl

maximum-first :
    (values : List ℕ) → (trimmed_mean values).maximum ≡ first_or_zero (sink_all values [])
unfolding trimmed_mean
maximum-first values = refl

slice-Between :
    (low high t : ℕ) (sorted : List ℕ)
    → t * 2 < length sorted
    → All (Between low high) sorted
    → Between low high
        (sum (take (length sorted - t * 2) (drop t sorted)) / (length sorted - t * 2))
slice-Between low high t sorted l h =
    let n = length sorted - t * 2 in
    let slice = take n (drop t sorted) in
    let long : length slice ≡ n =
      length-take n (drop t sorted) (omega (arith, length-drop t sorted)) in
    let (at_least, at_most) =
      sum-Between low high slice
        (take-All (Between low high) n (drop t sorted) (drop-All (Between low high) t sorted h)) in
    div-Between low high n (sum slice) (omega (arith, l))
      (subst (λ m. low * m ≤ sum slice) long at_least)
      (subst (λ m. sum slice ≤ high * m) long at_most)

-- Of values that fit in 32 bits, at least one, all are between the minimum and the maximum that are
-- reported, and so is the mean.
pub trimmed_mean-Between :
    (values : List ℕ)
    → 0 < length values
    → All (λ v. v < 2 ^ 32) values
    → let m = trimmed_mean values in
      All (λ v. (m.minimum ≤ v) × (v ≤ m.maximum)) values
      × ((m.minimum ≤ m.mean) × (m.mean ≤ m.maximum))
trimmed_mean-Between values l small =
    let m = trimmed_mean values in
    let P = Between m.minimum m.maximum in
    let xs = sink_all values [] in
    let sorted = reversed xs [] in
    let inside = samples-Between values in
    let long : length sorted ≡ length values =
      omega (arith, length-reversed xs [], length-sink_all values []) in
    let mean =
      slice-Between m.minimum m.maximum (trim_of (length values)) sorted
        (omega (arith, trim-lt (length values) l)) (reversed-All P xs [] inside tt) in
    let t = trim_of (length values) in
    let mean' = subst (λ n. P (sum (take (n - t * 2) (drop t sorted)) / (n - t * 2))) long mean in
    let fits =
      All-first (λ v. v < 2 ^ 32) xs ((sink_all-All (λ v. v < 2 ^ 32) values []).0 (small, tt))
        (omega (arith, length-sink_all values [], l)) in
    (
      ((sink_all-All P values []).1 inside).0,
      ground (arith, mean-slice values, maximum-first values, mean', fits),
    )
