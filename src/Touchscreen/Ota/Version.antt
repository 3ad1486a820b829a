-- ===== src/Touchscreen/Ota/Version.antt =====
-- touchscreen/main/touchscreen_ota.cpp, `parse_version` and `compare_versions`, with what `sscanf`
-- does with `%u` on a 32-bit `unsigned`.
use keg_scale_espdisplay.Prelude.{
  ℕ, ◌+◌, ◌-◌, ◌*◌, ◌%◌, ◌^◌, Bool, true, false, not, ◌&&◌, ◌||◌, Option, none, some, List, [], ◌∷◌,
  ltb, leb, ◌==◌, if◌then◌else◌, ℤ, pos, negsuc,
}

-- `isspace` in the C locale.
abbrev is_space : ℕ → Bool
is_space c = c == 32 || (leb 9 c && leb c 13)

abbrev is_digit : ℕ → Bool
is_digit c = leb 48 c && leb c 57

abbrev skip_spaces : List ℕ → List ℕ
skip_spaces [] = []
skip_spaces (c ∷ text) = let rest = skip_spaces text in if is_space c then rest else c ∷ text

-- The digits at the front, after the number so far, and the text that follows them.
abbrev digits_from : ℕ → List ℕ → ℕ × List ℕ
digits_from n [] = (n, [])
digits_from n (c ∷ text) =
    let rest = digits_from (n * 10 + (c - 48)) text in if is_digit c then rest else (n, c ∷ text)

abbrev digits_first : List ℕ → Option (ℕ × List ℕ)
digits_first [] = none
digits_first (c ∷ text) = if is_digit c then some (digits_from 0 (c ∷ text)) else none

-- `strtoul`: the largest number on overflow, and the negative modulo 2 ^ 32 after a minus sign.
unfoldable pub to_unsigned : Bool → ℕ → ℕ
to_unsigned minus n =
    if leb (2 ^ 32) n then 2 ^ 32 - 1 else if minus then (2 ^ 32 - n) % 2 ^ 32 else n

abbrev signed_digits : Bool → Option (ℕ × List ℕ) → Option (ℕ × List ℕ)
signed_digits minus none = none
signed_digits minus (some (n, text)) = some (to_unsigned minus n, text)

abbrev after_sign : List ℕ → Option (ℕ × List ℕ)
after_sign [] = none
after_sign (c ∷ text) =
    if c == 45
    then signed_digits true (digits_first text)
    else if c == 43
    then signed_digits false (digits_first text)
    else signed_digits false (digits_first (c ∷ text))

-- `%u`: the number and the text after it.
abbrev pub scan_unsigned : List ℕ → Option (ℕ × List ℕ)
scan_unsigned text = after_sign (skip_spaces text)

-- A character of the format that stands for itself.
abbrev scan_char : ℕ → Option (ℕ × List ℕ) → Option (ℕ × List ℕ)
scan_char c none = none
scan_char c (some (n, [])) = none
scan_char c (some (n, d ∷ text)) = if c == d then some (n, text) else none

abbrev with_patch : ℕ → ℕ → Option (ℕ × List ℕ) → Option (ℕ × ℕ × ℕ)
with_patch major minor none = none
with_patch major minor (some (patch, [])) = some (major, minor, patch)
with_patch major minor (some (patch, c ∷ text)) = none

abbrev with_minor : ℕ → Option (ℕ × List ℕ) → Option (ℕ × ℕ × ℕ)
with_minor major none = none
with_minor major (some (minor, text)) = with_patch major minor (scan_unsigned text)

abbrev with_major : Option (ℕ × List ℕ) → Option (ℕ × ℕ × ℕ)
with_major none = none
with_major (some (major, text)) = with_minor major (scan_char 46 (scan_unsigned text))

-- "V%u.%u.%u%c" with three conversions: `%c` finds no character.
abbrev pub parse_version : List ℕ → Option (ℕ × ℕ × ℕ)
parse_version [] = none
parse_version (c ∷ text) = if c == 86 then with_major (scan_char 46 (scan_unsigned text)) else none

unfoldable pub compare_parts : ℕ × ℕ × ℕ → ℕ × ℕ × ℕ → ℤ
compare_parts (a₁, a₂, a₃) (b₁, b₂, b₃) =
    if not (a₁ == b₁)
    then if ltb a₁ b₁ then negsuc 0 else pos 1
    else if not (a₂ == b₂)
    then if ltb a₂ b₂ then negsuc 0 else pos 1
    else if not (a₃ == b₃)
    then if ltb a₃ b₃ then negsuc 0 else pos 1
    else pos 0

abbrev pub compare_parsed : Option (ℕ × ℕ × ℕ) → Option (ℕ × ℕ × ℕ) → ℤ
compare_parsed none b = pos 0
compare_parsed (some a) none = pos 0
compare_parsed (some a) (some b) = compare_parts a b

unfoldable pub compare_versions : List ℕ → List ℕ → ℤ
unfolding compare_parts
compare_versions a b = compare_parsed (parse_version a) (parse_version b)
