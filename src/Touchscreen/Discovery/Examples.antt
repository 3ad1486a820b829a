-- ===== src/Touchscreen/Discovery/Examples.antt =====
-- Scans with names that appear twice, and an array that is too small for all.
use keg_scale_espdisplay.Prelude.{ℕ, ◌<◌, ◌≡◌, refl, List, [], ◌∷◌, ◌++◌, arith, length}
use keg_scale_espdisplay.Touchscreen.Discovery.{
  newline, network_options, manual, build_scale_options,
}
use keg_scale_espdisplay.Touchscreen.Discovery.Sizes.{build_scale_options-fit}

-- "keg", twice, and "tap".
abbrev hostnames : List (List ℕ)
hostnames = (107 ∷ 101 ∷ 103 ∷ []) ∷ [] ∷ (107 ∷ 101 ∷ 103 ∷ []) ∷ (116 ∷ 97 ∷ 112 ∷ []) ∷ []

build_scale_options-two : build_scale_options 800 hostnames ≡ (
  (107 ∷ 101 ∷ 103 ∷ 46 ∷ 108 ∷ 111 ∷ 99 ∷ 97 ∷ 108 ∷ [])
      ++ newline ∷ (116 ∷ 97 ∷ 112 ∷ 46 ∷ 108 ∷ 111 ∷ 99 ∷ 97 ∷ 108 ∷ [])
      ++ newline ∷ manual,
  2,
)
unfolding build_scale_options
build_scale_options-two = refl

build_scale_options-small :
    build_scale_options 40 hostnames
    ≡ ((107 ∷ 101 ∷ 103 ∷ 46 ∷ 108 ∷ 111 ∷ 99 ∷ 97 ∷ 108 ∷ []) ++ newline ∷ manual, 1)
unfolding build_scale_options
build_scale_options-small = refl

network_options-one : network_options ([] ∷ (97 ∷ 10 ∷ []) ∷ (98 ∷ []) ∷ []) ≡ 98 ∷ []
unfolding network_options
network_options-one = refl

build_scale_options-fit_example : length (build_scale_options 40 hostnames).0 < 40
build_scale_options-fit_example = build_scale_options-fit 40 hostnames (omega arith)
