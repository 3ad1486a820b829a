-- ===== src/Touchscreen/UiText.antt =====
-- touchscreen/main/ui_text.cpp, `append` and `sanitize`: a UTF-8 text becomes one that the fonts
-- can show. The source is the memory from its first byte on, since a damaged text makes the loop
-- read behind the terminator; the destination is the list of the `used` bytes.
use keg_scale_espdisplay.Prelude.{
  ℕ, zero, suc, ◌+◌, bit_and, Bool, not, ◌&&◌, ◌||◌, List, [], ◌∷◌, ◌++◌, ltb, leb, ◌==◌,
  if◌then◌else◌, length,
}
pub mod Ascii
pub mod Examples

unfoldable pub between : ℕ → ℕ → ℕ → Bool
between lo hi c = leb lo c && leb c hi

abbrev pub append : ℕ → List ℕ → List ℕ → List ℕ
append size [] dest = dest
append size (c ∷ text) dest =
    let more = append size text (dest ++ c ∷ []) in
    if ltb (length dest + 1) size then more else dest

-- The replacements behind the byte 0xC2; `?` where there is none.
unfoldable pub after_c2 : ℕ → List ℕ
after_c2 c =
    if c == 160
    then 32 ∷ []
    else if c == 176
    then 32 ∷ 100 ∷ 101 ∷ 103 ∷ []
    else if c == 177
    then 43 ∷ 47 ∷ 45 ∷ []
    else if c == 183
    then 45 ∷ []
    else 63 ∷ []

-- Behind 0xC3: the capital letters with accents.
unfoldable pub capital_c3 : ℕ → List ℕ
unfolding between
capital_c3 c =
    if between 128 133 c
    then 65 ∷ []
    else if c == 134
    then 65 ∷ 69 ∷ []
    else if c == 135
    then 67 ∷ []
    else if between 136 139 c
    then 69 ∷ []
    else if between 140 143 c
    then 73 ∷ []
    else if c == 145
    then 78 ∷ []
    else if between 146 150 c || c == 152
    then 79 ∷ []
    else if between 153 156 c
    then 85 ∷ []
    else if c == 157
    then 89 ∷ []
    else 63 ∷ []

-- Behind 0xC3: the small letters.
unfoldable pub small_c3 : ℕ → List ℕ
unfolding between
small_c3 c =
    if c == 159
    then 115 ∷ 115 ∷ []
    else if between 160 165 c
    then 97 ∷ []
    else if c == 166
    then 97 ∷ 101 ∷ []
    else if c == 167
    then 99 ∷ []
    else if between 168 171 c
    then 101 ∷ []
    else if between 172 175 c
    then 105 ∷ []
    else if c == 177
    then 110 ∷ []
    else if between 178 182 c || c == 184
    then 111 ∷ []
    else if between 185 188 c
    then 117 ∷ []
    else if c == 189 || c == 191
    then 121 ∷ []
    else 63 ∷ []

unfoldable pub after_c3 : ℕ → List ℕ
unfolding capital_c3 small_c3
after_c3 c = if ltb c 159 then capital_c3 c else small_c3 c

unfoldable pub after_c5 : ℕ → List ℕ
after_c5 c = if c == 146 then 79 ∷ 69 ∷ [] else if c == 147 then 111 ∷ 101 ∷ [] else 63 ∷ []

-- Behind 0xE2 0x80.
unfoldable pub after_e2_80 : ℕ → List ℕ
unfolding between
after_e2_80 c =
    if between 144 148 c
    then 45 ∷ []
    else if c == 152 || c == 153
    then 39 ∷ []
    else if c == 156 || c == 157
    then 34 ∷ []
    else if c == 162
    then 45 ∷ []
    else if c == 166
    then 46 ∷ 46 ∷ 46 ∷ []
    else 63 ∷ []

unfoldable pub after_e2 : ℕ → ℕ → List ℕ
unfolding after_e2_80
after_e2 c₁ c₂ =
    if c₁ == 128
    then after_e2_80 c₂
    else if c₁ == 134
    then (if c₂ == 144 then 60 ∷ 45 ∷ [] else if c₂ == 146 then 45 ∷ 62 ∷ [] else 63 ∷ [])
    else if c₁ == 154 && c₂ == 160
    then 33 ∷ []
    else if c₁ == 156 && c₂ == 147
    then 79 ∷ 75 ∷ []
    else 63 ∷ []

-- The bytes consumed where no table is asked.
unfoldable pub consumed_of : ℕ → ℕ
consumed_of c₀ =
    if bit_and c₀ 248 == 240
    then 4
    else if bit_and c₀ 240 == 224
    then 3
    else if bit_and c₀ 224 == 192
    then 2
    else 1

-- What a round appends and how many bytes it consumes; `c₂` is 0 where `c₁` is.
unfoldable pub replace : ℕ → ℕ → ℕ → List ℕ × ℕ
unfolding after_c2 after_c3 after_c5 after_e2 consumed_of
replace c₀ c₁ c₂ =
    if ltb c₀ 128
    then (c₀ ∷ [], 1)
    else if c₀ == 194 && not (c₁ == 0)
    then (after_c2 c₁, 2)
    else if c₀ == 195 && not (c₁ == 0)
    then (after_c3 c₁, 2)
    else if c₀ == 197 && not (c₁ == 0)
    then (after_c5 c₁, 2)
    else if c₀ == 226 && not (c₁ == 0) && not (c₂ == 0)
    then (after_e2 c₁ c₂, 3)
    else (63 ∷ [], consumed_of c₀)

-- The loop, with a fuel of as many rounds as the destination has bytes.
abbrev pub sanitize_from : ℕ → (ℕ → ℕ) → ℕ → ℕ → List ℕ → List ℕ
sanitize_from zero source size i dest = dest
sanitize_from (suc fuel) source size i dest =
    let c₁ = source (i + 1) in
    let (text, consumed) = replace (source i) c₁ (if c₁ == 0 then 0 else source (i + 2)) in
    let rest = sanitize_from fuel source size (i + consumed) (append size text dest) in
    if source i == 0 || not (ltb (length dest + 1) size) then dest else rest

-- For a destination that has at least one byte.
abbrev pub sanitize : (ℕ → ℕ) → ℕ → List ℕ
sanitize source size = sanitize_from size source size 0 []
