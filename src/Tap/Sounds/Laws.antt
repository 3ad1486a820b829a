-- ===== src/Tap/Sounds/Laws.antt =====
-- audio_events.h: the cues of a history of rounds.
use keg_scale_espdisplay.Prelude.{
  ℕ, ◌+◌, ◌≤◌, ◌≡◌, refl, ◌⊎◌, Bool, true, false, List, [], ◌∷◌, arith, bit,
}
use keg_scale_espdisplay.Tap.Sounds.{SoundCue, cup, begin, complete, halt, SoundEvents, update}

-- The arguments of one call of `update`.
pub record Round : Type 0 where
  pub is_ready : Bool
  pub active : Bool
  pub absent : Bool
  pub is_complete : Bool
  pub now : ℕ

abbrev pub round_update : Round → SoundEvents → SoundEvents × SoundCue
round_update r s = update r.is_ready r.active r.absent r.is_complete r.now s

unfoldable pub run : List Round → SoundEvents → SoundEvents
run [] s = s
run (r ∷ rs) s = run rs (round_update r s).0

abbrev pub is_begin : SoundCue → ℕ
is_begin begin = 1
is_begin _ = 0

abbrev pub is_end : SoundCue → ℕ
is_end complete = 1
is_end halt = 1
is_end _ = 0

abbrev pub is_cup : SoundCue → ℕ
is_cup cup = 1
is_cup _ = 0

-- How often the rounds give a cue that the measure counts.
unfoldable pub cues : (SoundCue → ℕ) → List Round → SoundEvents → ℕ
cues p [] s = 0
cues p (r ∷ rs) s = let (s', q) = round_update r s in p q + cues p rs s'

update-pouring :
    (r : Round) (s : SoundEvents)
    → let (s', q) = round_update r s in is_begin q + bit s.pouring ≡ is_end q + bit s'.pouring
unfolding update
update-pouring r s = ground arith

-- Over any rounds the start cues and the end cues balance: their difference is that of the pour
-- states at the ends, so every pour that ends has one start cue and one end cue.
pub cues_balance :
    (rs : List Round) (s : SoundEvents)
    → cues is_begin rs s + bit s.pouring ≡ cues is_end rs s + bit (run rs s).pouring
unfolding cues run
cues_balance [] s = refl
cues_balance (r ∷ rs) s = omega (arith, update-pouring r s, cues_balance rs (round_update r s).0)

-- No round reports a missing cup while the tap is closed.
abbrev pub CupStays : List Round → Type 0
CupStays [] = Unit
CupStays (r ∷ rs) = ((r.absent ≡ false) ⊎ (r.active ≡ true)) × CupStays rs

update-cup :
    (r : Round) (s : SoundEvents)
    → (r.absent ≡ false) ⊎ (r.active ≡ true)
    → let (s', q) = round_update r s in is_cup q + bit s.cup_latched ≤ bit s'.cup_latched
unfolding update
update-cup r s h = ground arith

cups-bit :
    (rs : List Round) (s : SoundEvents)
    → CupStays rs
    → cues is_cup rs s + bit s.cup_latched ≤ bit (run rs s).cup_latched
unfolding cues run
cups-bit [] s h = omega arith
cups-bit (r ∷ rs) s (h, hs) = omega (arith, update-cup r s h, cups-bit rs (round_update r s).0 hs)

-- While the cup is not reported missing from a closed tap, the cup chirps at most once, and not at
-- all if it has chirped already.
pub cups-le :
    (rs : List Round) (s : SoundEvents)
    → CupStays rs
    → (cues is_cup rs s ≤ 1) × (s.cup_latched ≡ true → cues is_cup rs s ≡ 0)
cups-le rs s h = (ground (arith, cups-bit rs s h), λ l. ground (arith, cups-bit rs s h))
