-- ===== src/Tap/History/Retention.antt =====
-- pour_history.cpp, `writer_task` and `history_list`: which pours a save keeps.
use keg_scale_espdisplay.Prelude.{
  ℕ, zero, suc, ◌+◌, ◌≤◌, ◌<◌, ◌≡◌, refl, ap, ◌⊎◌, inl, inr, true, false, some, List, [], ◌∷◌,
  arith, ltb, ◌==◌, ltb→lt, lt→ltb, Bool-cases, length, get_elem?, set, take, All,
}
use keg_scale_espdisplay.Tap.History.{
  PourSummary, Header, no_header, History, in_use, insert, sort, history_list,
}
use keg_scale_espdisplay.Tap.History.Storage.{Partition, Outcome, oldest_from, oldest, sealed, save}

abbrev pub AtLeast : ℕ → List Header → Type 0
AtLeast m hs = All (λ d. m ≤ d.summary.id) hs

-- The slot found: the one so far, or one of the slots left, with the smallest number.
abbrev Found : ℕ → ℕ → ℕ → List Header → ℕ → Type 0
Found i slot id hs r =
    ((r ≡ slot) × AtLeast id hs)
    ⊎ ((j : ℕ) × (d : Header) × (r ≡ i + j)
        × (get_elem? hs j ≡ some d)
        × (d.summary.id ≤ id)
        × AtLeast d.summary.id hs)

AtLeast-weaken : (m n : ℕ) (hs : List Header) → m ≤ n → AtLeast n hs → AtLeast m hs
AtLeast-weaken m n [] h a = tt
AtLeast-weaken m n (d ∷ hs) h a = (omega (arith, a.0), AtLeast-weaken m n hs h a.1)

oldest_from-Found :
    (i slot id : ℕ) (hs : List Header) → Found i slot id hs (oldest_from i slot id hs)
oldest_from-Found i slot id [] = inl (refl, tt)
oldest_from-Found i slot id (h ∷ hs) = elim (Bool-cases (ltb h.summary.id id)) [
  | inl e ↦ rw e (
      let l = ltb→lt h.summary.id id e in
      elim (oldest_from-Found (suc i) i h.summary.id hs) [
        | inl (r, a) ↦ inr (0, h, omega arith, refl, omega arith, (omega arith, a))
        | inr (j, d, r, g, le, a) ↦ inr (suc j, d, omega arith, g, omega arith, (le, a))
      ])
  | inr e ↦ rw e (elim (oldest_from-Found (suc i) slot id hs) [
    | inl (r, a) ↦ inl (r, (ground arith, a))
    | inr (j, d, r, g, le, a) ↦ inr (suc j, d, omega arith, g, le, (ground arith, a))
  ])
]

-- The slot that a save replaces holds the smallest number of all slots.
oldest-AtLeast :
    (hs : List Header)
    → 0 < length hs
    → (d : Header) × (get_elem? hs (oldest hs) ≡ some d) × AtLeast d.summary.id hs
oldest-AtLeast [] h = absurd (omega arith)
oldest-AtLeast (x ∷ hs) h = elim (oldest_from-Found 1 0 x.summary.id hs) [
  | inl (r, a) ↦ (x, rw r refl, (omega arith, a))
  | inr (j, d, r, g, le, a) ↦ let e : oldest (x ∷ hs) ≡ suc j = omega arith in (d, rw e g, (le, a))
]

set-set : (hs : List Header) (i : ℕ) (a b : Header) → set (set hs i a) i b ≡ set hs i b
set-set [] i a b = refl
set-set (x ∷ hs) zero a b = refl
set-set (x ∷ hs) (suc i) a b = ap (λ ys. x ∷ ys) (set-set hs i a b)

-- All four operations of the save succeed.
abbrev pub Succeeds : Outcome → Type 0
Succeeds r = (r.erase_ok ≡ true) × (r.points_ok ≡ true) × (r.header_ok ≡ true) × (r.magic_ok ≡ true)

module _ (p : Partition) (r : Outcome) (h : History) where
  save_headers : Succeeds r → (save p r h).0.headers ≡ set h.headers (oldest h.headers) (sealed p h)
  unfolding save
  save_headers (a, b, c, d) =
      rw (a, b, c, d) (set-set h.headers (oldest h.headers) no_header (sealed p h))

-- Every number is smaller than `n`.
abbrev pub Below : ℕ → List PourSummary → Type 0
Below n ss = All (λ s. s.id < n) ss

insert-Below :
    (n : ℕ) (s : PourSummary) (ss : List PourSummary)
    → s.id < n
    → Below n ss
    → Below n (insert s ss)
insert-Below n s [] h b = (h, tt)
insert-Below n s (t ∷ ts) h b = elim (Bool-cases (ltb s.id t.id)) [
  | inl e ↦ rw e (b.0, insert-Below n s ts h b.1)
  | inr e ↦ rw e (h, b)
]

sort-Below : (n : ℕ) (ss : List PourSummary) → Below n ss → Below n (sort ss)
sort-Below n [] b = tt
sort-Below n (s ∷ ss) b = insert-Below n s (sort ss) b.0 (sort-Below n ss b.1)

insert_newest : (s : PourSummary) (ss : List PourSummary) → Below s.id ss → insert s ss ≡ s ∷ ss
insert_newest s [] b = refl
insert_newest s (t ∷ ts) b = ground (arith, b.0)

in_use-Below : (n : ℕ) (hs : List Header) → All (λ d. d.summary.id < n) hs → Below n (in_use hs)
in_use-Below n [] b = tt
in_use-Below n (d ∷ hs) b = elim (Bool-cases (d.summary.id == 0)) [
  | inl e ↦ rw e (in_use-Below n hs b.1)
  | inr e ↦ rw e (b.0, in_use-Below n hs b.1)
]

sort-in_use :
    (hs : List Header) (slot : ℕ) (d : Header)
    → slot < length hs
    → 0 < d.summary.id
    → All (λ e. e.summary.id < d.summary.id) hs
    → (ts : List PourSummary) × (sort (in_use (set hs slot d)) ≡ d.summary ∷ ts)
sort-in_use [] slot d l z b = absurd (omega arith)
sort-in_use (e ∷ hs) zero d l z b =
    let f : (d.summary.id == 0) ≡ false = ground arith in
    let g = sort-Below d.summary.id (in_use hs) (in_use-Below d.summary.id hs b.1) in
    (sort (in_use hs), rw f (insert_newest d.summary (sort (in_use hs)) g))
sort-in_use (e ∷ hs) (suc slot) d l z b =
    let (ts, g) = sort-in_use hs slot d (omega arith) z b.1 in
    elim (Bool-cases (e.summary.id == 0)) [
      | inl f ↦ (ts, rw f g)
      | inr f ↦
          (insert e.summary ts, let k = lt→ltb e.summary.id d.summary.id b.0 in rw (f, g, k) refl)
    ]

get_elem?-lt : (hs : List Header) (i : ℕ) (d : Header) → get_elem? hs i ≡ some d → i < length hs
get_elem?-lt [] i d e = ground arith
get_elem?-lt (x ∷ hs) zero d e = omega arith
get_elem?-lt (x ∷ hs) (suc i) d e = omega (arith, get_elem?-lt hs i d e)

-- After a successful save the list of pours starts with the pour that was saved, if the number it
-- gets is larger than those of the slots.
pub history_list-newest :
    (p : Partition) (r : Outcome) (h : History)
    → Succeeds r
    → 0 < length h.headers
    → 0 < h.next_id
    → All (λ d. d.summary.id < h.next_id) h.headers
    → (ts : List PourSummary) × (history_list (save p r h).0 ≡ (sealed p h).summary ∷ ts)
unfolding sealed
history_list-newest p r h s n z b =
    let (old, g, _) = oldest-AtLeast h.headers n in
    let l = get_elem?-lt h.headers (oldest h.headers) old g in
    let (ts, e) = sort-in_use h.headers (oldest h.headers) (sealed p h) l z b in
    (take 4 ts, rw (save_headers p r h s, e) refl)
