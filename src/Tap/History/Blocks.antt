-- ===== src/Tap/History/Blocks.antt =====
-- pour_history.cpp, `load_slots` and `writer_task`: the checksum by blocks, and the operations of a
-- save.
use keg_scale_espdisplay.Tap.History.{slot_size, max_points, History}
use keg_scale_espdisplay.Prelude.{
  ℕ, zero, suc, ◌+◌, ◌-◌, ◌*◌, ◌≤◌, ◌<◌, min, bit_xor, ◌≡◌, refl, sym, ap, ◌∙◌, subst, inl, inr,
  true, some, List, [], ◌∷◌, arith, Bool-cases, length, take, All,
}
use keg_scale_espdisplay.Tap.History.Storage.{
  Partition, crc_bits, crc, Write, erase, write_points, write_header, write_magic, Outcome, oldest,
  check_blocks, save_writes, save,
}

abbrev pub drop : ℕ → List ℕ → List ℕ
drop zero xs = xs
drop (suc n) [] = []
drop (suc n) (x ∷ xs) = drop n xs

crc-take : (n : ℕ) (xs : List ℕ) (v : ℕ) → crc (drop n xs) (crc (take n xs) v) ≡ crc xs v
crc-take zero xs v = refl
crc-take (suc n) [] v = refl
crc-take (suc n) (x ∷ xs) v = crc-take n xs (crc_bits 8 (bit_xor v x))

length-drop : (n : ℕ) (xs : List ℕ) → length (drop n xs) ≡ length xs - n
length-drop zero xs = omega arith
length-drop (suc n) [] = omega arith
length-drop (suc n) (x ∷ xs) = omega (arith, length-drop n xs)

drop_all : (xs : List ℕ) → drop (length xs) xs ≡ []
drop_all [] = refl
drop_all (x ∷ xs) = drop_all xs

-- The partition holds `bytes` from `offset` on: a read inside them succeeds and gives that part.
abbrev pub Holds : Partition → ℕ → List ℕ → Type 0
Holds p offset bytes =
    (i n : ℕ) → i + n ≤ length bytes → p.read_bytes (offset + i) n ≡ some (take n (drop i bytes))

drop-drop : (n i : ℕ) (xs : List ℕ) → drop i (drop n xs) ≡ drop (n + i) xs
drop-drop zero i xs = ap (λ m. drop m xs) (omega arith)
drop-drop (suc n) i [] = drop_nil i ∙ sym (drop_nil (suc n + i))
  where
    drop_nil : (i : ℕ) → drop i [] ≡ []
    drop_nil zero = refl
    drop_nil (suc i) = refl
drop-drop (suc n) i (x ∷ xs) =
    let e : suc n + i ≡ suc (n + i) = omega arith in rw e (drop-drop n i xs)

Holds-drop :
    (p : Partition) (offset n : ℕ) (bytes : List ℕ)
    → n ≤ length bytes
    → Holds p offset bytes
    → Holds p (offset + n) (drop n bytes)
Holds-drop p offset n bytes l h i m k =
    let e = length-drop n bytes in
    let a : offset + n + i ≡ offset + (n + i) = omega arith in
    rw (a, drop-drop n i bytes) (h (n + i) m (omega arith))

-- The loop of `load_slots` over blocks of 512 bytes computes the checksum of all the bytes, as the
-- writer did, if the partition holds them; it ends after at most one round per byte.
pub check_blocks-crc :
    (p : Partition) (fuel offset : ℕ) (bytes : List ℕ) (check : ℕ)
    → length bytes ≤ fuel
    → Holds p offset bytes
    → check_blocks p fuel offset (length bytes) check ≡ some (crc bytes check)
unfolding check_blocks
check_blocks-crc p fuel offset [] check l h = refl
check_blocks-crc p zero offset (b ∷ bytes) check l h = absurd (omega arith)
check_blocks-crc p (suc fuel) offset (b ∷ bytes) check l h =
    let xs = b ∷ bytes in
    let n = min (suc (length bytes)) 512 in
    let z : offset + 0 ≡ offset = omega arith in
    let r : p.read_bytes offset n ≡ some (take n xs) =
      ap (λ o. p.read_bytes o n) (sym z) ∙ h 0 n (omega arith) in
    let rest =
      check_blocks-crc p fuel (offset + n) (drop n xs) (crc (take n xs) check)
        (omega (arith, length-drop n xs, l)) (Holds-drop p offset n xs (omega arith) h) in
    let m : length (drop n xs) ≡ suc (length bytes) - n = length-drop n xs in
    rw r (
      subst (λ k. check_blocks p fuel (offset + n) k (crc (take n xs) check) ≡ some (crc xs check))
        m (rest ∙ ap some (crc-take n xs check)))

-- The place of a write lies in the slot.
abbrev pub InSlot : ℕ → Write → Type 0
InSlot slot (erase o n) = (slot * slot_size ≤ o) × (o + n ≤ (slot + 1) * slot_size)
InSlot slot (write_points o n) = (slot * slot_size ≤ o) × (o + n ≤ (slot + 1) * slot_size)
InSlot slot (write_header o n) = (slot * slot_size ≤ o) × (o + n ≤ (slot + 1) * slot_size)
InSlot slot (write_magic o n) = (slot * slot_size ≤ o) × (o + n ≤ (slot + 1) * slot_size)

-- A write of the magic word comes last, and only after the other three have succeeded.
abbrev pub MagicLast : Outcome → List Write → Type 0
MagicLast r [] = Unit
MagicLast r (write_magic o n ∷ ws) =
    (ws ≡ []) × (r.erase_ok ≡ true) × (r.points_ok ≡ true) × (r.header_ok ≡ true)
MagicLast r (w ∷ ws) = MagicLast r ws

mul_le : (a b n : ℕ) → a ≤ b → a * n ≤ b * n
mul_le a b n h = grind arith

-- Every operation of a save stays in the slot that it replaces, if a header and the points fit a
-- slot (as the source asserts), and the magic word, without which the slot is not valid, is written
-- last, after the other operations have succeeded.
pub save-writes :
    (p : Partition) (r : Outcome) (h : History)
    → h.pending.count ≤ max_points
    → 4 ≤ p.header_size
    → p.header_size + max_points * p.point_size < slot_size
    → All (InSlot (oldest h.headers)) (save p r h).1 × MagicLast r (save p r h).1
unfolding save save_writes
save-writes p r h c a b =
    let m = mul_le h.pending.count max_points p.point_size c in
    let at = oldest h.headers * slot_size in
    let fits : at + p.header_size + h.pending.count * p.point_size
        ≤ (oldest h.headers + 1) * slot_size =
      omega (arith, m, b) in
    let w₀ : InSlot (oldest h.headers) (erase at slot_size) = (omega arith, omega arith) in
    let w₁ : InSlot (oldest h.headers)
        (write_points (at + p.header_size) (h.pending.count * p.point_size)) =
      (omega arith, fits) in
    let w₂ : InSlot (oldest h.headers) (write_header (at + 4) (p.header_size - 4)) =
      (omega arith, omega (arith, a, fits)) in
    let w₃ : InSlot (oldest h.headers) (write_magic at 4) = (omega arith, omega arith) in
    elim (Bool-cases r.erase_ok) [
      | inr e ↦ rw e ((w₀, tt), tt)
      | inl e ↦ elim (Bool-cases r.points_ok) [
        | inr f ↦ rw (e, f) ((w₀, (w₁, tt)), tt)
        | inl f ↦ elim (Bool-cases r.header_ok) [
          | inr g ↦ rw (e, f, g) ((w₀, (w₁, (w₂, tt))), tt)
          | inl g ↦ rw (e, f, g) ((w₀, (w₁, (w₂, (w₃, tt)))), (refl, refl, refl, refl))
        ]
      ]
    ]
