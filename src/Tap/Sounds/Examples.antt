-- ===== src/Tap/Sounds/Examples.antt =====
-- A cup that stays, and one pour.
use keg_scale_espdisplay.Prelude.{ℕ, ◌≡◌, refl, Bool, true, false, List, [], ◌∷◌}
use keg_scale_espdisplay.Tap.Sounds.{new_sounds, update}
use keg_scale_espdisplay.Tap.Sounds.Laws.{Round, is_begin, is_end, is_cup, cues}

abbrev sound_round : Bool → Bool → Bool → ℕ → Round
sound_round r a c n = record { is_ready = r; active = a; absent = false; is_complete = c; now = n }

abbrev one_pour : List Round
one_pour =
    sound_round true false false 10
    ∷ sound_round false true false 20
    ∷ sound_round false false true 30
    ∷ sound_round true false false 40
    ∷ []

one_pour-cues :
    (cues is_cup one_pour new_sounds ≡ 1)
    × (cues is_begin one_pour new_sounds ≡ 1)
    × (cues is_end one_pour new_sounds ≡ 1)
unfolding cues update
one_pour-cues = (refl, refl, refl)
