-- ===== src/Touchscreen/Hex/Examples.antt =====
-- Hexadecimal texts of three bytes, and a text that is no such text.
use keg_scale_espdisplay.Prelude.{ℕ, ◌≡◌, refl, none, some, List, [], ◌∷◌, arith}
use keg_scale_espdisplay.Touchscreen.Hex.{cl_hex, cl_unhex, cl_unhex-cl_hex}

abbrev three : List ℕ
three = 0 ∷ 175 ∷ 255 ∷ []

three-hex : cl_hex three ≡ 48 ∷ 48 ∷ 97 ∷ 102 ∷ 102 ∷ 102 ∷ []
three-hex = refl

-- A text that is too short for the bytes asked for.
three-short : cl_unhex (cl_hex three) 4 ≡ none
unfolding cl_unhex
three-short = refl

cl_unhex-cl_hex_example : cl_unhex (cl_hex three) 3 ≡ some three
cl_unhex-cl_hex_example = cl_unhex-cl_hex three (omega arith, (omega arith, (omega arith, tt)))
