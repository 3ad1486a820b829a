-- ===== src/Touchscreen/Hex.antt =====
-- touchscreen/components/controller_link/controller_link.c: bytes written as hexadecimal digits.
use keg_scale_espdisplay.Prelude.{
  ℕ, ◌+◌, ◌-◌, ◌*◌, ◌/◌, ◌<◌, bit_and, ◌≡◌, refl, Bool, true, false, ◌&&◌, Option, none, some, List,
  [], ◌∷◌, arith, leb, ◌==◌, if◌then◌else◌, every_below, every_below-at, length, get_elem?, All,
}
pub mod Examples

-- "0123456789abcdef"
abbrev digits : List ℕ
digits = 48 ∷ 49 ∷ 50 ∷ 51 ∷ 52 ∷ 53 ∷ 54 ∷ 55 ∷ 56 ∷ 57 ∷ 97 ∷ 98 ∷ 99 ∷ 100 ∷ 101 ∷ 102 ∷ []

abbrev or_zero : Option ℕ → ℕ
or_zero none = 0
or_zero (some c) = c

abbrev pub cl_hex : List ℕ → List ℕ
cl_hex [] = []
cl_hex (b ∷ bytes) =
    or_zero (get_elem? digits (b / 16)) ∷ or_zero (get_elem? digits (bit_and b 15)) ∷ cl_hex bytes

-- `nibble`, with nothing for -1.
unfoldable pub nibble : ℕ → Option ℕ
nibble c =
    if leb 48 c && leb c 57
    then some (c - 48)
    else if leb 97 c && leb c 102
    then some (c - 97 + 10)
    else if leb 65 c && leb c 70
    then some (c - 65 + 10)
    else none

abbrev pub byte_of : Option ℕ → Option ℕ → Option ℕ
byte_of none b = none
byte_of (some a) none = none
byte_of (some a) (some b) = some (a * 16 + b)

abbrev pub cons_if : Option ℕ → Option (List ℕ) → Option (List ℕ)
cons_if none bytes = none
cons_if (some b) none = none
cons_if (some b) (some bytes) = some (b ∷ bytes)

-- The loop, on the digits of `len` bytes.
unfoldable pub pairs : List ℕ → Option (List ℕ)
unfolding nibble
pairs [] = some []
pairs (c ∷ []) = none
pairs (c ∷ d ∷ text) = let rest = pairs text in cons_if (byte_of (nibble c) (nibble d)) rest

unfoldable pub cl_unhex : List ℕ → ℕ → Option (List ℕ)
unfolding pairs
cl_unhex text len = if length text == len * 2 then pairs text else none

-- The byte that the two digits of a byte hold, read again.
abbrev reread : ℕ → Option ℕ
reread b =
    byte_of (nibble (or_zero (get_elem? digits (b / 16))))
      (nibble (or_zero (get_elem? digits (bit_and b 15))))

abbrev holds : Option ℕ → ℕ → Bool
holds none b = false
holds (some a) b = a == b

holds-eq : (o : Option ℕ) (b : ℕ) → holds o b ≡ true → o ≡ some b
holds-eq none b h = absurd (ground (arith, h))
holds-eq (some a) b h = ground (arith, h)

-- Every byte, by evaluation.
reread-table : every_below 256 (λ b. holds (reread b) b) ≡ true
unfolding nibble
reread-table = refl

reread-byte : (b : ℕ) → b < 256 → reread b ≡ some b
reread-byte b h =
    holds-eq (reread b) b (every_below-at 256 (λ a. holds (reread a) a) b reread-table h)

length-hex : (bytes : List ℕ) → length (cl_hex bytes) ≡ length bytes * 2
length-hex [] = refl
length-hex (b ∷ bytes) = omega (arith, length-hex bytes)

pairs-hex : (bytes : List ℕ) → All (λ b. b < 256) bytes → pairs (cl_hex bytes) ≡ some bytes
unfolding pairs
pairs-hex [] h = refl
pairs-hex (b ∷ bytes) h = rw (reread-byte b h.0) (rw (pairs-hex bytes h.1) refl)

-- Bytes, each below 256, that are written as hexadecimal digits and read again, as that many bytes,
-- are the same.
pub cl_unhex-cl_hex :
    (bytes : List ℕ)
    → All (λ b. b < 256) bytes
    → cl_unhex (cl_hex bytes) (length bytes) ≡ some bytes
unfolding cl_unhex
cl_unhex-cl_hex bytes h = ground (arith, length-hex bytes, pairs-hex bytes h)
