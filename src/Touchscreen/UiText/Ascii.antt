-- ===== src/Touchscreen/UiText/Ascii.antt =====
-- ui_text.cpp: what `sanitize` writes.
use keg_scale_espdisplay.Prelude.{
  ℕ, zero, suc, ◌+◌, ◌≤◌, ◌<◌, ◌≡◌, refl, ◌≢◌, inl, inr, false, List, [], ◌∷◌, ◌++◌, arith, ltb,
  ◌==◌, if◌then◌else◌, ltb→lt, lt→ltb, Bool-cases, length, All, length-append, All-append,
}
use keg_scale_espdisplay.Touchscreen.UiText.{
  append, after_c2, capital_c3, small_c3, after_c3, after_c5, after_e2_80, after_e2, replace,
  sanitize_from, sanitize,
}

-- A character of the ASCII set other than the terminator.
abbrev pub IsAscii : ℕ → Type 0
IsAscii c = (0 < c) × (c < 128)

abbrev Shown : List ℕ → Type 0
Shown text = All IsAscii text × (0 < length text)

after_c2-Shown : (c : ℕ) → Shown (after_c2 c)
unfolding after_c2
after_c2-Shown c = ground arith

capital_c3-Shown : (c : ℕ) → Shown (capital_c3 c)
unfolding capital_c3
capital_c3-Shown c = ground arith

small_c3-Shown : (c : ℕ) → Shown (small_c3 c)
unfolding small_c3
small_c3-Shown c = ground arith

after_c3-Shown : (c : ℕ) → Shown (after_c3 c)
unfolding after_c3
after_c3-Shown c = ground (arith, capital_c3-Shown c, small_c3-Shown c)

after_c5-Shown : (c : ℕ) → Shown (after_c5 c)
unfolding after_c5
after_c5-Shown c = ground arith

after_e2_80-Shown : (c : ℕ) → Shown (after_e2_80 c)
unfolding after_e2_80
after_e2_80-Shown c = ground arith

after_e2-Shown : (c₁ c₂ : ℕ) → Shown (after_e2 c₁ c₂)
unfolding after_e2
after_e2-Shown c₁ c₂ = ground (arith, after_e2_80-Shown c₂)

replace-Shown : (c₀ c₁ c₂ : ℕ) → c₀ ≢ 0 → Shown (replace c₀ c₁ c₂).0
unfolding replace
replace-Shown c₀ c₁ c₂ n =
    ground (arith, after_c2-Shown c₁, after_c3-Shown c₁, after_c5-Shown c₁, after_e2-Shown c₁ c₂)

-- The destination holds shown characters and has room for the terminator.
abbrev pub Fits : ℕ → List ℕ → Type 0
Fits size dest = All IsAscii dest × (length dest < size)

append-Fits :
    (size : ℕ) (text dest : List ℕ)
    → All IsAscii text
    → Fits size dest
    → Fits size (append size text dest) × (length dest ≤ length (append size text dest))
append-Fits size [] dest t f = (f, omega arith)
append-Fits size (c ∷ text) dest t f = elim (Bool-cases (ltb (length dest + 1) size)) [
  | inr e ↦ rw e (f, omega arith)
  | inl e ↦
      let l = length-append dest (c ∷ []) in
      let h = ltb→lt (length dest + 1) size e in
      let (g, m) =
        append-Fits size text (dest ++ c ∷ []) t.1
          (All-append IsAscii dest (c ∷ []) f.0 (t.0, tt), omega (arith, l, h)) in
      rw e (g, omega (arith, m, l))
]

-- Text that is not empty adds a byte while there is room.
append-lt :
    (size : ℕ) (text dest : List ℕ)
    → Shown text
    → Fits size dest
    → length dest + 1 < size
    → length dest < length (append size text dest)
append-lt size [] dest t f h = absurd (omega (arith, t.1))
append-lt size (c ∷ text) dest t f h =
    let l = length-append dest (c ∷ []) in
    let (g, m) =
      append-Fits size text (dest ++ c ∷ []) (t.0).1
        (All-append IsAscii dest (c ∷ []) f.0 ((t.0).0, tt), omega (arith, l, h)) in
    rw (lt→ltb (length dest + 1) size h) (omega (arith, m, l))

sanitize_from-Fits :
    (fuel : ℕ) (source : ℕ → ℕ) (size i : ℕ) (dest : List ℕ)
    → Fits size dest
    → Fits size (sanitize_from fuel source size i dest)
sanitize_from-Fits zero source size i dest f = f
sanitize_from-Fits (suc fuel) source size i dest f =
    let c₁ = source (i + 1) in
    let c₂ = if c₁ == 0 then 0 else source (i + 2) in
    elim (Bool-cases (source i == 0)) [
      | inl e ↦ rw e f
      | inr e ↦ elim (Bool-cases (ltb (length dest + 1) size)) [
        | inr g ↦ rw (e, g) f
        | inl g ↦
            rw (e, g)
              (let t = replace-Shown (source i) c₁ c₂ (ground arith) in
                sanitize_from-Fits fuel source size _ _ (append-Fits size _ dest t.0 f).0)
      ]
    ]

-- Two fuels that are both at least the room left give the same result.
sanitize_from_fuel :
    (m n : ℕ) (source : ℕ → ℕ) (size i : ℕ) (dest : List ℕ)
    → Fits size dest
    → size ≤ m + length dest + 1
    → size ≤ n + length dest + 1
    → sanitize_from m source size i dest ≡ sanitize_from n source size i dest
sanitize_from_fuel zero zero source size i dest f p q = refl
sanitize_from_fuel zero (suc n) source size i dest f p q =
    let g : ltb (length dest + 1) size ≡ false = ground arith in
    elim (Bool-cases (source i == 0)) [ inl e ↦ rw e refl | inr e ↦ rw (e, g) refl ]
sanitize_from_fuel (suc m) zero source size i dest f p q =
    let g : ltb (length dest + 1) size ≡ false = ground arith in
    elim (Bool-cases (source i == 0)) [ inl e ↦ rw e refl | inr e ↦ rw (e, g) refl ]
sanitize_from_fuel (suc m) (suc n) source size i dest f p q =
    let c₁ = source (i + 1) in
    let c₂ = if c₁ == 0 then 0 else source (i + 2) in
    let text = (replace (source i) c₁ c₂).0 in
    elim (Bool-cases (source i == 0)) [
      | inl e ↦ rw e refl
      | inr e ↦ elim (Bool-cases (ltb (length dest + 1) size)) [
        | inr g ↦ rw (e, g) refl
        | inl g ↦
            rw (e, g)
              (let t = replace-Shown (source i) c₁ c₂ (ground arith) in
                let (f', _) = append-Fits size text dest t.0 f in
                let l = append-lt size text dest t f (ltb→lt (length dest + 1) size g) in
                sanitize_from_fuel m n source size _ _ f' (omega (arith, l, p))
                  (omega (arith, l, q)))
      ]
    ]

-- Whatever the memory holds, the text written consists of ASCII characters, leaves a byte of the
-- destination for the terminator, and is complete: more rounds than the destination has bytes
-- change nothing.
pub sanitize-Fits :
    (source : ℕ → ℕ) (size : ℕ)
    → 0 < size
    → Fits size (sanitize source size)
      × ((more : ℕ) → sanitize_from (size + more) source size 0 [] ≡ sanitize source size)
sanitize-Fits source size h = (
  sanitize_from-Fits size source size 0 [] (tt, h),
  λ more.
      sanitize_from_fuel (size + more) size source size 0 [] (tt, h) (omega arith) (omega arith),
)
