-- ===== src/Tap/Foam/Laws.antt =====
-- foam_capture.h: the rows of a recording fit together.
use keg_scale_espdisplay.Prelude.{
  ℕ, ◌+◌, ◌*◌, ◌/◌, ◌%◌, ◌≤◌, ◌<◌, ◌≡◌, refl, sym, ap, ◌∙◌, subst, ◌≢◌, ◌⊎◌, inl, inr, Bool, true,
  false, ◌||◌, Option, none, some, List, [], ◌∷◌, ◌++◌, arith, bit, length, length-append, last_or,
  last_or-append, Chained, Chained-append, sub32, add32, pos, diff,
}
use keg_scale_espdisplay.Tap.Foam.{
  FoamRow, capacity, FoamCapture, start, stop, mark, Observation, flags_of, row_of, append_row,
  is_old, observe, foam_start, foam_stop, foam_mark, complete, complete_at, foam_observe,
}

-- `r` follows the row `o`: its interval and its change of distance are those between the two.
abbrev pub Follows : Option FoamRow → FoamRow → Type 0
Follows none r = (r.interval_ms ≡ 0) × (r.delta_mm ≡ pos 0) × (r.flags / 2 % 2 ≡ 0)
Follows (some p) r =
    (r.sequence ≢ p.sequence)
    × (add32 p.elapsed_ms r.interval_ms ≡ r.elapsed_ms)
    × (r.flags / 2 % 2 ≡ (p.flags % 2) * (r.flags % 2))
    × (r.flags / 2 % 2 ≡ 1 → r.delta_mm ≡ diff r.mm p.mm)
    × (r.flags / 2 % 2 ≡ 0 → r.delta_mm ≡ pos 0)

-- The variables that `observe` compares with are those of the last row.
abbrev pub Recalls : FoamCapture → Option FoamRow → Type 0
Recalls k none = (k.previous_valid ≡ false) × (length k.rows ≡ 0)
Recalls k (some p) =
    (k.seen ≡ true)
    × (length k.rows ≢ 0)
    × (k.last_sequence ≡ p.sequence)
    × (k.previous_mm ≡ p.mm)
    × (sub32 k.previous_at k.started ≡ p.elapsed_ms)
    × (bit k.previous_valid ≡ p.flags % 2)

pub record WellFormed (k : FoamCapture) : Type 0 where
  pub fits : length k.rows ≤ capacity
  pub room : k.active ≡ true → length k.rows < capacity
  pub chained : Chained Follows none k.rows
  pub recalls : Recalls k (last_or none k.rows)

row_of-Follows :
    (o : Observation) (k : FoamCapture) (p : Option FoamRow)
    → Recalls k p
    → is_old o k ≡ false
    → Follows p (complete o (row_of o k))
unfolding row_of is_old complete sub32 add32 flags_of
row_of-Follows o k none r h = ground arith
row_of-Follows o k (some p) r h = ground arith

append_row-Recalls :
    (o : Observation) (k : FoamCapture) (p : Option FoamRow)
    → Recalls k p
    → Recalls (append_row o k) (some (row_of o k))
unfolding append_row stop row_of flags_of sub32
append_row-Recalls o k p r = ground (arith, length-append k.rows (row_of o k ∷ []))

append_row-rows :
    (o : Observation) (k : FoamCapture) → (append_row o k).rows ≡ k.rows ++ row_of o k ∷ []
unfolding append_row stop
append_row-rows o k = ground arith

complete_at-append_last :
    (o : Observation) (xs : List FoamRow) (r : FoamRow)
    → complete_at o (length xs) (xs ++ r ∷ []) ≡ xs ++ complete o r ∷ []
complete_at-append_last o [] r = refl
complete_at-append_last o (x ∷ xs) r = ap (λ zs. x ∷ zs) (complete_at-append_last o xs r)

foam_observe_row :
    (o : Observation) (k : FoamCapture) (r : FoamRow)
    → (observe o k).rows ≡ k.rows ++ r ∷ []
    → (foam_observe o k).rows ≡ k.rows ++ complete o r ∷ []
unfolding foam_observe
foam_observe_row o k r e =
    let n : length (observe o k).rows ≡ length k.rows + 1 = rw e (length-append k.rows (r ∷ [])) in
    ground (arith, complete_at-append_last o k.rows r)

foam_observe_same :
    (o : Observation) (k : FoamCapture)
    → (observe o k).rows ≡ k.rows
    → foam_observe o k ≡ observe o k
unfolding foam_observe
foam_observe_same o k e = ground arith

-- A call of one of the functions of foam_capture.cpp that change the recording.
pub data Call : Type 0 where
  starts : ℕ → Call
  stops : ℕ → Call
  marks : ℕ → Call
  observes : Observation → Call

abbrev pub step : Call → FoamCapture → FoamCapture
step (starts now) k = foam_start now k
step (stops now) k = foam_stop now k
step (marks marker) k = (foam_mark marker k).0
step (observes o) k = foam_observe o k

abbrev pub run_calls : List Call → FoamCapture → FoamCapture
run_calls [] k = k
run_calls (e ∷ es) k = run_calls es (step e k)

-- The same rows, and the same memory of the last one.
abbrev Same : FoamCapture → FoamCapture → Type 0
Same k k' =
    (k'.rows ≡ k.rows)
    × (k'.started ≡ k.started)
    × (k'.seen ≡ k.seen)
    × (k'.previous_valid ≡ k.previous_valid)
    × (k'.last_sequence ≡ k.last_sequence)
    × (k'.previous_at ≡ k.previous_at)
    × (k'.previous_mm ≡ k.previous_mm)

Recalls-Same : (k k' : FoamCapture) (p : Option FoamRow) → Same k k' → Recalls k p → Recalls k' p
Recalls-Same k k' none e r = ground arith
Recalls-Same k k' (some p) e r = ground arith

Same-WellFormed :
    (k k' : FoamCapture)
    → Same k k'
    → (k'.active ≡ true → (k.active ≡ true) ⊎ (length k.rows < capacity))
    → WellFormed k
    → WellFormed k'
Same-WellFormed k k' e f w = record {
  fits = rw e.0 w.fits;
  room = λ h. rw e.0 (elim (f h) [ inl a ↦ w.room a | inr n ↦ n ]);
  chained = rw e.0 w.chained;
  recalls =
      subst (λ xs. Recalls k' (last_or none xs)) (sym e.0)
        (Recalls-Same k k' (last_or none k.rows) e w.recalls);
}

-- Adding the row keeps the recording well-formed.
appended-WellFormed :
    (o : Observation) (k k' : FoamCapture)
    → WellFormed k
    → length k.rows < capacity
    → is_old o k ≡ false
    → k'.rows ≡ k.rows ++ complete o (row_of o k) ∷ []
    → (k'.active ≡ true → length k'.rows ≢ capacity)
    → Recalls k' (some (complete o (row_of o k)))
    → WellFormed k'
appended-WellFormed o k k' w a h e f r =
    let c = complete o (row_of o k) in
    let n = length-append k.rows (c ∷ []) in
    record {
      fits = rw e (omega (arith, n, a));
      room = λ t. let m = ap length e in omega (arith, n, a, m, f t);
      chained = rw e (
          Chained-append Follows none k.rows c w.chained
            (row_of-Follows o k (last_or none k.rows) w.recalls h));
      recalls =
          subst (λ xs. Recalls k' (last_or none xs)) (sym e) (rw (last_or-append none k.rows c) r);
    }

-- `foam_observe` adds nothing, or adds one row for a sample that is not old.
observe_cases :
    (o : Observation) (k : FoamCapture)
    → (Same k (observe o k) × ((observe o k).active ≡ true → k.active ≡ true))
      ⊎ ((k.active ≡ true)
          × (is_old o (record k { pending_button = k.pending_button || o.button }) ≡ false)
          × (length k.rows ≢ capacity)
          × (observe o k
              ≡ append_row o (record k { pending_button = k.pending_button || o.button })))
unfolding observe stop
observe_cases o k = ground arith

append_row-room :
    (o : Observation) (k : FoamCapture)
    → (append_row o k).active ≡ true
    → length (append_row o k).rows ≢ capacity
unfolding append_row stop
append_row-room o k h = ground arith

complete-Recalls :
    (o : Observation) (k : FoamCapture) (r : FoamRow) (n : List FoamRow)
    → length n ≢ 0
    → Recalls k (some r)
    → Recalls (record k { rows = n }) (some (complete o r))
unfolding complete
complete-Recalls o k r n h e = ground arith

foam_observe_rest :
    (o : Observation) (k : FoamCapture)
    → foam_observe o k ≡ record (observe o k) { rows = (foam_observe o k).rows }
unfolding foam_observe
foam_observe_rest o k = ground arith

-- A row is added for a sample that is not old.
foam_observe-appended :
    (o : Observation) (k : FoamCapture) (b : Bool)
    → (let k₁ = record k { pending_button = b } in
        WellFormed k₁
        → length k.rows < capacity
        → is_old o k₁ ≡ false
        → observe o k ≡ append_row o k₁
        → WellFormed (foam_observe o k))
foam_observe-appended o k b w a h f =
    let k₁ = record k { pending_button = b } in
    let r = row_of o k₁ in
    let g = foam_observe_row o k r (ap (λ (x : FoamCapture). x.rows) f ∙ append_row-rows o k₁) in
    let added = (foam_observe o k).rows in
    let n : length added ≡ length (append_row o k₁).rows =
      ap length g
      ∙ length-append k.rows (complete o r ∷ [])
      ∙ sym (length-append k.rows (r ∷ []))
      ∙ sym (ap length (append_row-rows o k₁)) in
    let rest : foam_observe o k ≡ record (append_row o k₁) { rows = added } =
      foam_observe_rest o k ∙ ap (λ (x : FoamCapture). record x { rows = added }) f in
    let nonempty : length added ≢ 0 =
      let l = length-append k.rows (complete o r ∷ []) in let l' = ap length g in omega arith in
    let full : (foam_observe o k).active ≡ true → length added ≢ capacity = λ t.
      (let u = append_row-room o k₁ (sym (ap (λ (x : FoamCapture). x.active) rest) ∙ t) in
        omega arith) in
    let m = append_row-Recalls o k₁ (last_or none k.rows) w.recalls in
    appended-WellFormed o k₁ (foam_observe o k) w a h g full (
      subst (λ x. Recalls x (some (complete o r))) (sym rest)
        (complete-Recalls o (append_row o k₁) r added nonempty m))

foam_observe-WellFormed :
    (o : Observation) (k : FoamCapture) → WellFormed k → WellFormed (foam_observe o k)
foam_observe-WellFormed o k w = elim (observe_cases o k) [
  | inl (e, f) ↦
      rw (foam_observe_same o k e.0) (Same-WellFormed k (observe o k) e (λ h. inl (f h)) w)
  | inr (a, h, n, e) ↦
      let b = k.pending_button || o.button in
      let w₁ =
        Same-WellFormed k (record k { pending_button = b })
          (refl, refl, refl, refl, refl, refl, refl) (λ x. inl x) w in
      foam_observe-appended o k b w₁ (w.room a) h e
]

pub step-WellFormed : (e : Call) (k : FoamCapture) → WellFormed k → WellFormed (step e k)
unfolding start stop mark
step-WellFormed (starts now) k w = record {
  fits = omega arith;
  room = λ h. omega arith;
  chained = tt;
  recalls = (refl, refl);
}
step-WellFormed (stops now) k w =
    Same-WellFormed k (stop now k) (ground arith) (λ h. ground arith) w
step-WellFormed (marks marker) k w =
    Same-WellFormed k (mark marker k).0 (ground arith) (λ h. ground arith) w
step-WellFormed (observes o) k w = foam_observe-WellFormed o k w

-- Whatever is called, a recording holds at most 3000 rows, and one that is active has room for
-- one more. Each row has another sequence number than the row before it, its interval leads from
-- that row's time to its own, and its change of distance, with the flag DELTA_VALID, is the
-- difference of the two distances when both are valid, and 0 without the flag otherwise.
pub run_calls-WellFormed :
    (es : List Call) (k : FoamCapture) → WellFormed k → WellFormed (run_calls es k)
run_calls-WellFormed [] k w = w
run_calls-WellFormed (e ∷ es) k w = run_calls-WellFormed es (step e k) (step-WellFormed e k w)
