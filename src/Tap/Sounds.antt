-- ===== src/Tap/Sounds.antt =====
-- touchpour/components/tap_control/audio_events.h: which sound a round of the controller asks for.
use keg_scale_espdisplay.Prelude.{ℕ, Bool, true, false, not, ◌&&◌, ◌||◌, leb, if◌then◌else◌, sub32}
pub mod Laws
pub mod Examples

pub data SoundCue : Type 0 where
  silence cup begin complete halt preview : SoundCue

pub SoundCue-discrete : Discrete SoundCue
SoundCue-discrete = hlevel

pub record SoundEvents : Type 0 where
  pub cup_latched : Bool
  pub pouring : Bool
  pub absence_pending : Bool
  pub absent_since : ℕ

abbrev pub new_sounds : SoundEvents
new_sounds = record {
  cup_latched = false;
  pouring = false;
  absence_pending = false;
  absent_since = 0;
}

-- The first statement of `update`.
unfoldable pub note_absence : Bool → Bool → ℕ → SoundEvents → SoundEvents
unfolding sub32
note_absence active absent now s =
    if not (absent && not active)
    then record s { absence_pending = false }
    else let s' =
        if not s.absence_pending
        then record s { absence_pending = true; absent_since = now }
        else s in
      if leb 600 (sub32 now s'.absent_since) then record s' { cup_latched = false } else s'

-- The rest of `update`: `cup_latched` and `pouring` are written, and the cue is chosen.
unfoldable pub choose : Bool → Bool → Bool → SoundEvents → SoundEvents × SoundCue
choose is_ready active is_complete s = (
  record s { cup_latched = is_ready || s.cup_latched; pouring = active },
  (if active && not s.pouring
      then begin
      else if not active && s.pouring
      then (if is_complete then complete else halt)
      else if is_ready && not s.cup_latched && not active
      then cup
      else silence),
)

unfoldable pub update : Bool → Bool → Bool → Bool → ℕ → SoundEvents → SoundEvents × SoundCue
unfolding note_absence choose
update is_ready active absent is_complete now s =
    choose is_ready active is_complete (note_absence active absent now s)
