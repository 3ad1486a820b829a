-- ===== src/Tap/History/Points.antt =====
-- pour_history.cpp, `history_observe`: the points that a recording holds.
use keg_scale_espdisplay.Prelude.{
  ℕ, zero, suc, ◌+◌, ◌-◌, ◌≤◌, ◌<◌, ◌≡◌, refl, ◌⊎◌, inl, inr, true, false, ◌||◌, Option, none, some,
  List, [], ◌∷◌, arith, ltb, Bool-cases, length, get_elem?, set, length-append, length-set, last_or,
  last_or-append,
}
use keg_scale_espdisplay.Tap.History.{
  max_points, PourPoint, History, Observation, point_of, put_point, add_point, begin_recording,
  end_recording, history_observe,
}

-- The recording holds `count` points, at least one and at most 242.
abbrev pub Filled : History → Type 0
Filled h =
    (h.pending.count ≡ length h.points) × (0 < length h.points) × (length h.points ≤ max_points)

-- A recording and a save exclude each other, and both have their points.
pub record WellFormed (h : History) : Type 0 where
  pub one : (h.recording ≡ false) ⊎ (h.saving ≡ false)
  pub filled : (h.recording ≡ true) ⊎ (h.saving ≡ true) → Filled h

set_last :
    (xs : List PourPoint) (n : ℕ) (x : PourPoint)
    → length xs ≡ n + 1
    → last_or none (set xs n x) ≡ some x
set_last xs n x e = go none xs n e
  where
    go :
        (o : Option PourPoint) (xs : List PourPoint) (n : ℕ)
        → length xs ≡ n + 1
        → last_or o (set xs n x) ≡ some x
    go o [] n e = absurd (omega arith)
    go o (y ∷ []) zero e = refl
    go o (y ∷ z ∷ ys) zero e = absurd (omega arith)
    go o (y ∷ ys) (suc n) e = go (some y) ys n (omega arith)

put_point_lem :
    (row : PourPoint) (points : List PourPoint)
    → length points ≤ max_points
    → (last_or none (put_point row points) ≡ some row)
      × (0 < length (put_point row points))
      × (length (put_point row points) ≤ max_points)
unfolding put_point
put_point_lem row points h = ground (
  arith,
  set_last points (max_points - 1) row,
  length-set points (max_points - 1) row,
  length-append points (row ∷ []),
  last_or-append none points row,
)

pub add_point-Filled :
    (o : Observation) (h : History)
    → length h.points ≤ max_points
    → Filled (add_point o h) × (last_or none (add_point o h).points ≡ some (point_of o h))
unfolding add_point
add_point-Filled o h n = let l = put_point_lem (point_of o h) h.points n in ((refl, l.1, l.2), l.0)

abbrev pub pressed : Observation → History → History
pressed o h = record h { pending_button = h.pending_button || o.button }

module _ (o : Observation) (h : History) where
  observe_cases :
      (history_observe o h ≡ h)
      ⊎ ((h.recording ≡ false)
          × (h.saving ≡ false)
          × (history_observe o h ≡ add_point o (begin_recording o h)))
      ⊎ ((h.recording ≡ true)
          × (h.saving ≡ false)
          × ((history_observe o h ≡ pressed o h)
              ⊎ ((history_observe o h ≡ add_point o (pressed o h))
                  ⊎ (history_observe o h ≡ end_recording o (add_point o (pressed o h))))))
  unfolding history_observe
  observe_cases = ground arith

  pub history_observe-WellFormed : WellFormed h → WellFormed (history_observe o h)
  unfolding add_point begin_recording end_recording
  history_observe-WellFormed w = elim observe_cases [
    | inl e ↦ rw e w
    | inr (inl (r, s, e)) ↦ rw e (
        let f = add_point-Filled o (begin_recording o h) (omega arith) in
        record { one = inr s; filled = λ _. f.0 })
    | inr (inr (r, s, inl e)) ↦ rw e (record { one = inr s; filled = λ _. w.filled (inl r) })
    | inr (inr (r, s, inr (inl e))) ↦ rw e (
        let f = add_point-Filled o (pressed o h) ((w.filled (inl r)).2) in
        record { one = inr s; filled = λ _. f.0 })
    | inr (inr (r, s, inr (inr e))) ↦ rw e (
        let f = add_point-Filled o (pressed o h) ((w.filled (inl r)).2) in
        record { one = inl refl; filled = λ _. f.0 })
  ]

pub put_point-first :
    (row x : PourPoint) (points : List PourPoint)
    → get_elem? points 0 ≡ some x
    → get_elem? (put_point row points) 0 ≡ some x
unfolding put_point
put_point-first row x [] e = absurd (ground (arith, e))
put_point-first row x (y ∷ ys) e = elim (Bool-cases (ltb (length (y ∷ ys)) max_points)) [
  | inl f ↦ rw f e
  | inr f ↦ rw f e
]
