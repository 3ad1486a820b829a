-- ===== src/Touchscreen/UiText/Examples.antt =====
-- "21 °C", and a text that ends inside a character.
use keg_scale_espdisplay.Prelude.{ℕ, zero, suc, ◌+◌, ◌≡◌, refl, List, [], ◌∷◌, arith}
use keg_scale_espdisplay.Touchscreen.UiText.{sanitize_from, sanitize}
use keg_scale_espdisplay.Touchscreen.UiText.Ascii.{Fits, sanitize-Fits}

-- Memory that holds the bytes and then zeros.
abbrev memory : List ℕ → ℕ → ℕ
memory [] i = 0
memory (c ∷ cs) zero = c
memory (c ∷ cs) (suc i) = memory cs i

abbrev degrees : ℕ → ℕ
degrees = memory (50 ∷ 49 ∷ 194 ∷ 176 ∷ 67 ∷ [])

degrees-sanitize : sanitize degrees 16 ≡ 50 ∷ 49 ∷ 32 ∷ 100 ∷ 101 ∷ 103 ∷ 67 ∷ []
unfolding keg_scale_espdisplay.Touchscreen.UiText.replace
degrees-sanitize = refl

-- The byte 0xF0 alone is followed by its terminator, and the three bytes behind that are skipped:
-- what stands after them is shown.
damaged-sanitize : sanitize (memory (240 ∷ 0 ∷ 88 ∷ 88 ∷ 65 ∷ [])) 16 ≡ 63 ∷ 65 ∷ []
unfolding keg_scale_espdisplay.Touchscreen.UiText.replace
damaged-sanitize = refl

sanitize-Fits_example :
    Fits 16 (sanitize degrees 16)
    × ((more : ℕ) → sanitize_from (16 + more) degrees 16 0 [] ≡ sanitize degrees 16)
sanitize-Fits_example = sanitize-Fits degrees 16 (omega arith)
