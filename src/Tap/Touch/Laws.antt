-- ===== src/Tap/Touch/Laws.antt =====
-- emergency_touch.h: contacts from the first finger to the release of all.
use keg_scale_espdisplay.Prelude.{
  ℕ, suc, ◌+◌, ◌≡◌, refl, Bool, true, false, List, [], ◌∷◌, arith, if◌then◌else◌,
}
use keg_scale_espdisplay.Tap.Touch.{EmergencyTouch, update}

-- Healthy reads with at least one finger down, each with `pouring`.
unfoldable pub hold : List (ℕ × Bool) → EmergencyTouch → EmergencyTouch
hold [] t = t
hold ((n, pouring) ∷ es) t = hold es (update true (suc n) pouring t).0

unfoldable pub stops : List (ℕ × Bool) → EmergencyTouch → ℕ
stops [] t = 0
stops ((n, pouring) ∷ es) t =
    let (t', s) = update true (suc n) pouring t in (if s then 1 else 0) + stops es t'

stops_of_down : (es : List (ℕ × Bool)) (t : EmergencyTouch) → t.down ≡ true → stops es t ≡ 0
unfolding stops update
stops_of_down [] t d = refl
stops_of_down ((n, pouring) ∷ es) t d =
    ground (arith, stops_of_down es (update true (suc n) pouring t).0)

hold-consumed :
    (es : List (ℕ × Bool)) (t : EmergencyTouch) → t.consumed ≡ true → (hold es t).consumed ≡ true
unfolding hold update
hold-consumed [] t d = d
hold-consumed ((n, pouring) ∷ es) t d =
    ground (arith, hold-consumed es (update true (suc n) pouring t).0)

-- A contact that begins while the tap pours asks for one stop at its first read and for no other
-- until all fingers are up, and it stays consumed, so it can do nothing else.
pub contact_stops_once :
    (n : ℕ) (es : List (ℕ × Bool)) (t : EmergencyTouch)
    → t.down ≡ false
    → (stops ((n, true) ∷ es) t ≡ 1) × ((hold ((n, true) ∷ es) t).consumed ≡ true)
unfolding stops hold update
contact_stops_once n es t d =
    let t' = (update true (suc n) true t).0 in
    (ground (arith, stops_of_down es t'), ground (arith, hold-consumed es t'))
