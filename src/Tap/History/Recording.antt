-- ===== src/Tap/History/Recording.antt =====
-- pour_history.cpp, `history_observe`: what a recording holds while a pour goes on and at its end.
use keg_scale_espdisplay.Prelude.{
  ◌≡◌, refl, ap, ◌⊎◌, inl, inr, true, false, none, some, List, [], ◌∷◌, arith, get_elem?, All,
  last_or, sub32,
}
use keg_scale_espdisplay.Tap.History.Points.{Filled, add_point-Filled, pressed, put_point-first}
use keg_scale_espdisplay.Tap.History.{
  PourPoint, History, Observation, point_of, put_point, add_point, begin_recording, end_recording,
  history_observe,
}

module _ (o : Observation) (h : History) where
  observe_ends :
      o.available ≡ true
      → h.saving ≡ false
      → h.recording ≡ true
      → o.pouring ≡ false
      → history_observe o h ≡ end_recording o (add_point o (pressed o h))
  unfolding history_observe
  observe_ends a b r e = ground arith

  observe_pours :
      o.pouring ≡ true
      → h.recording ≡ true
      → h.saving ≡ false
      → (history_observe o h ≡ h)
        ⊎ ((history_observe o h ≡ pressed o h) ⊎ (history_observe o h ≡ add_point o (pressed o h)))
  unfolding history_observe
  observe_pours p r s = ground arith

  observe_begins :
      o.available ≡ true
      → h.saving ≡ false
      → h.recording ≡ false
      → o.pouring ≡ true
      → history_observe o h ≡ add_point o (begin_recording o h)
  unfolding history_observe
  observe_begins a s r e = ground arith

-- The rounds in their order.
abbrev pub observe_all : List Observation → History → History
observe_all [] h = h
observe_all (o ∷ os) h = observe_all os (history_observe o h)

-- The recording that the round `o` began goes on: its start, its first point and its summary are
-- those of that round.
pub record Recorded (o : Observation) (first : PourPoint) (h : History) : Type 0 where
  pub recording : h.recording ≡ true
  pub saving : h.saving ≡ false
  pub filled : Filled h
  pub started : h.started ≡ o.now
  pub first_point : get_elem? h.points 0 ≡ some first
  pub settings : h.pending.summary.settings ≡ o.c
  pub manual_hold : h.pending.summary.manual_hold ≡ o.hold

module _ (o₀ : Observation) (first : PourPoint) where
  pressed-Recorded :
      (o : Observation) (h : History) → Recorded o₀ first h → Recorded o₀ first (pressed o h)
  pressed-Recorded o h r = record {
    recording = r.recording;
    saving = r.saving;
    filled = r.filled;
    started = r.started;
    first_point = r.first_point;
    settings = r.settings;
    manual_hold = r.manual_hold;
  }

  add_point-Recorded :
      (o : Observation) (h : History) → Recorded o₀ first h → Recorded o₀ first (add_point o h)
  unfolding add_point
  add_point-Recorded o h r = record {
    recording = r.recording;
    saving = r.saving;
    filled = (add_point-Filled o h r.filled.2).0;
    started = r.started;
    first_point = put_point-first (point_of o h) first h.points r.first_point;
    settings = r.settings;
    manual_hold = r.manual_hold;
  }

  observe_all-Recorded :
      (os : List Observation) (h : History)
      → All (λ o. o.pouring ≡ true) os
      → Recorded o₀ first h
      → Recorded o₀ first (observe_all os h)
  observe_all-Recorded [] h a r = r
  observe_all-Recorded (o ∷ os) h a r =
      observe_all-Recorded os (history_observe o h) a.1
        (elim (observe_pours o h a.0 r.recording r.saving) [
          | inl e ↦ rw e r
          | inr (inl e) ↦ rw e (pressed-Recorded o h r)
          | inr (inr e) ↦ rw e (add_point-Recorded o (pressed o h) (pressed-Recorded o h r))
        ])

observe_begins-Recorded :
    (o : Observation) (h : History)
    → h.recording ≡ false
    → h.saving ≡ false
    → o.available ≡ true
    → o.pouring ≡ true
    → Recorded o (point_of o (begin_recording o h)) (history_observe o h)
unfolding begin_recording add_point put_point
observe_begins-Recorded o h r s a p = rw (observe_begins o h a s r p) (record {
  recording = refl;
  saving = s;
  filled = (add_point-Filled o (begin_recording o h) (omega arith)).0;
  started = refl;
  first_point = refl;
  settings = refl;
  manual_hold = refl;
})

-- What the writer gets of a pour, by the round that began it and the one that ended it.
pub record Handed (o₀ o : Observation) (h : History) : Type 0 where
  pub recording : h.recording ≡ false
  pub saving : h.saving ≡ true
  pub filled : Filled h
  pub duration : h.pending.summary.duration_ms ≡ sub32 o.now o₀.now
  pub reason : h.pending.summary.reason ≡ some o.reason
  pub settings : h.pending.summary.settings ≡ o₀.c
  pub manual_hold : h.pending.summary.manual_hold ≡ o₀.hold
  pub first_point :
      (x : PourPoint) × (get_elem? h.points 0 ≡ some x)
      × (x.elapsed_ms ≡ sub32 o₀.now o₀.now)
      × (x.mm ≡ o₀.s.mm)
      × (x.sequence ≡ o₀.s.sequence)
  pub last_point :
      (x : PourPoint) × (last_or none h.points ≡ some x)
      × (x.elapsed_ms ≡ sub32 o.now o₀.now)
      × (x.mm ≡ o.s.mm)
      × (x.sequence ≡ o.s.sequence)

Recorded-Handed :
    (o₀ o : Observation) (h₀ h : History)
    → Recorded o₀ (point_of o₀ (begin_recording o₀ h₀)) h
    → o.available ≡ true
    → o.pouring ≡ false
    → Handed o₀ o (history_observe o h)
unfolding end_recording add_point begin_recording point_of
Recorded-Handed o₀ o h₀ h r a p =
    let f = add_point-Filled o (pressed o h) r.filled.2 in
    let since : sub32 o.now h.started ≡ sub32 o.now o₀.now = ap (λ t. sub32 o.now t) r.started in
    let row = point_of o₀ (begin_recording o₀ h₀) in
    rw (observe_ends o h a r.saving r.recording p) (record {
      recording = refl;
      saving = refl;
      filled = f.0;
      duration = since;
      reason = refl;
      settings = r.settings;
      manual_hold = r.manual_hold;
      first_point = (
        row,
        put_point-first (point_of o (pressed o h)) row h.points r.first_point,
        refl,
        refl,
        refl,
      );
      last_point = (point_of o (pressed o h), f.1, since, refl, refl);
    })

-- A pour from the round that begins it, over any rounds in which it goes on, to the round that ends
-- it: it is handed to the writer with between 1 and 242 points, the first of them the reading of
-- the first round, at the time of that round, and the last one the reading of the last round. The
-- duration is the time from the first round to the last, the settings and the kind of the pour are
-- those of the first round, and the reason is that of the last.
pub history_observe-end :
    (h : History) (o₀ : Observation) (os : List Observation) (o : Observation)
    → h.recording ≡ false
    → h.saving ≡ false
    → o₀.available ≡ true
    → o₀.pouring ≡ true
    → All (λ x. x.pouring ≡ true) os
    → o.available ≡ true
    → o.pouring ≡ false
    → Handed o₀ o (history_observe o (observe_all os (history_observe o₀ h)))
history_observe-end h o₀ os o r s a p ps b e =
    let row = point_of o₀ (begin_recording o₀ h) in
    let begun = observe_begins-Recorded o₀ h r s a p in
    Recorded-Handed o₀ o h (observe_all os (history_observe o₀ h))
      (observe_all-Recorded o₀ row os (history_observe o₀ h) ps begun) b e
