-- ===== src/Tap/Button/Laws.antt =====
-- button_gesture.h: which presses start something.
use keg_scale_espdisplay.Prelude.{
  ℕ, ◌+◌, ◌≤◌, ◌≡◌, refl, ap, ◌⊎◌, Bool, true, false, not, ◌&&◌, List, [], ◌∷◌, arith,
  if◌then◌else◌, bit, sub32,
}
use keg_scale_espdisplay.Tap.Button.{
  ButtonGesture, debounce_ms, new_gesture, cancel_until_release, update,
}

-- A call reports a press or a release only if the level has been steady for 30 ms, and a short and
-- a long press never together; a release after a long press or a cancel is no short press.
pub update-events :
    (high : Bool) (now : ℕ) (busy : Bool) (g : ButtonGesture)
    → let (g', e) = update high now busy g in
      (e.pressed ≡ true → (high ≡ false) × (debounce_ms ≤ sub32 now g'.edge) × (g.debounced ≡ true))
      × (e.released ≡ true
          → (high ≡ true) × (debounce_ms ≤ sub32 now g'.edge) × (g.debounced ≡ false))
      × (e.short_press ≡ true
          → (e.released ≡ true)
            × (g.armed ≡ true)
            × (g.blocked ≡ false)
            × (g.long_sent ≡ false)
            × (e.long_press ≡ false))
      × (e.long_press ≡ true → (high ≡ false) × (g'.armed ≡ true) × (g'.long_sent ≡ true))
unfolding update
update-events high now busy g =
    (λ h. ground arith, λ h. ground arith, λ h. ground arith, λ h. ground arith)

-- The starts that a press allows: one press, one start.
abbrev open_press : ButtonGesture → ℕ
open_press g = if not g.debounced && g.armed && not g.blocked && not g.long_sent then 1 else 0

-- Calls of `update`, with the level, the clock and `busy` of each.
unfoldable pub run : List (Bool × ℕ × Bool) → ButtonGesture → ButtonGesture
run [] g = g
run ((high, now, busy) ∷ es) g = run es (update high now busy g).0

unfoldable pub starts : List (Bool × ℕ × Bool) → ButtonGesture → ℕ
starts [] g = 0
starts ((high, now, busy) ∷ es) g =
    let (g', e) = update high now busy g in bit e.short_press + bit e.long_press + starts es g'

unfoldable pub presses : List (Bool × ℕ × Bool) → ButtonGesture → ℕ
presses [] g = 0
presses ((high, now, busy) ∷ es) g =
    let (g', e) = update high now busy g in bit e.pressed + presses es g'

-- A press is under way.
abbrev held : ButtonGesture → ℕ
held g = if g.debounced then 0 else if g.armed then 1 else 0

update-starts :
    (high : Bool) (now : ℕ) (busy : Bool) (g : ButtonGesture)
    → let (g', e) = update high now busy g in
      bit e.short_press + bit e.long_press + open_press g' ≤ bit e.pressed + open_press g
unfolding update
update-starts high now busy g = ground arith

starts-open_press :
    (es : List (Bool × ℕ × Bool)) (g : ButtonGesture) → starts es g ≤ presses es g + open_press g
unfolding starts presses
starts-open_press [] g = omega arith
starts-open_press ((high, now, busy) ∷ es) g =
    omega (arith, update-starts high now busy g, starts-open_press es (update high now busy g).0)

-- From power-up, whatever the level does, the short and long presses together are at most as many
-- as the presses, so one press starts at most one thing.
pub starts-le-presses :
    (high : Bool) (now : ℕ) (es : List (Bool × ℕ × Bool))
    → starts es (new_gesture high now) ≤ presses es (new_gesture high now)
unfolding new_gesture
starts-le-presses true now es = omega (arith, starts-open_press es (new_gesture true now))
starts-le-presses false now es = omega (arith, starts-open_press es (new_gesture false now))

update-blocked :
    (high : Bool) (now : ℕ) (busy : Bool) (g : ButtonGesture)
    → g.debounced ≡ false
    → g.blocked ≡ true
    → let (g', e) = update high now busy g in
      (e.short_press ≡ false)
      × (e.long_press ≡ false)
      × ((e.released ≡ true) ⊎ ((g'.debounced ≡ false) × (g'.blocked ≡ true)))
unfolding update
update-blocked high now busy g d b = ground arith

-- None of the calls reports a release.
abbrev pub NoRelease : List (Bool × ℕ × Bool) → ButtonGesture → Type 0
NoRelease [] g = Unit
NoRelease ((high, now, busy) ∷ es) g =
    let (g', e) = update high now busy g in (e.released ≡ false) × NoRelease es g'

blocked-starts :
    (es : List (Bool × ℕ × Bool)) (g : ButtonGesture)
    → g.debounced ≡ false
    → g.blocked ≡ true
    → NoRelease es g
    → (starts es g ≡ 0) × ((run es g).debounced ≡ false) × ((run es g).blocked ≡ true)
unfolding starts run
blocked-starts [] g d b n = (refl, d, b)
blocked-starts ((high, now, busy) ∷ es) g d b (q, n) =
    let (s, l, r) = update-blocked high now busy g d b in
    let g' = (update high now busy g).0 in
    let kept : (g'.debounced ≡ false) × (g'.blocked ≡ true) = ground arith in
    let (z, d', b') = blocked-starts es g' kept.0 kept.1 n in
    (omega (arith, ap bit s, ap bit l), d', b')

-- After `cancelUntilRelease` on a held button nothing starts until a release is reported, and that
-- release is no short press either.
pub cancel_until_release-starts :
    (es : List (Bool × ℕ × Bool)) (g : ButtonGesture) (high : Bool) (now : ℕ) (busy : Bool)
    → g.debounced ≡ false
    → NoRelease es (cancel_until_release g)
    → (starts es (cancel_until_release g) ≡ 0)
      × ((update high now busy (run es (cancel_until_release g))).1.short_press ≡ false)
      × ((update high now busy (run es (cancel_until_release g))).1.long_press ≡ false)
unfolding cancel_until_release
cancel_until_release-starts es g high now busy d n =
    let (z, d', b') = blocked-starts es (cancel_until_release g) d refl n in
    let (s, l, _) = update-blocked high now busy (run es (cancel_until_release g)) d' b' in
    (z, s, l)
