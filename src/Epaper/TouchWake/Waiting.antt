-- ===== src/Epaper/TouchWake/Waiting.antt =====
-- touch_wake.c, `wait_for_state`: it ends, and what it has seen where it succeeds.
use keg_scale_espdisplay.Esp.{Err, timeout}
use keg_scale_espdisplay.Prelude.{
  ℕ, zero, suc, ◌+◌, ◌-◌, ◌%◌, ◌^◌, ◌≤◌, ◌<◌, ◌≡◌, refl, sym, ap, ◌∙◌, subst, ◌⊎◌, inl, inr, Bool,
  true, false, Option, none, some, arith, leb, leb→le, Bool-cases, add32, add32-mod,
}
use keg_scale_espdisplay.Epaper.TouchWake.{Reading, value, unread, Driver, World}
use keg_scale_espdisplay.Epaper.TouchWake.Sampling.{
  read_touch_value, Reading-cases, look, matches, before_deadline, wait_from, ms_to_ticks,
  wait_for_state,
}

-- The tick count is that of a clock that wraps, and goes on between two looks of a loop, by at most
-- 2 ^ 30 ticks. The looks of the loop are those after the look `first`.
pub record Advances (d : Driver) (clock : ℕ → ℕ) (first : ℕ) : Type 0 where
  pub ticks : (i : ℕ) → d.ticks i ≡ clock i % 2 ^ 32
  pub begins : clock first ≤ clock (first + 1)
  pub later : (i : ℕ) → first < i → clock i < clock (i + 1)
  pub near : (i : ℕ) → clock (i + 1) ≤ clock i + 2 ^ 30

past_deadline :
    (deadline now : ℕ)
    → deadline ≤ now
    → now ≤ deadline + 2 ^ 30
    → before_deadline (deadline % 2 ^ 32) (now % 2 ^ 32) ≡ false
unfolding before_deadline
past_deadline deadline now h k = ground arith

module _ (d : Driver) (threshold : ℕ) (touched : Bool) where
  wait_from-past :
      (deadline n consecutive : ℕ) (w : World)
      → before_deadline deadline (d.ticks w.looked) ≡ false
      → wait_from d threshold touched deadline (suc n) consecutive w ≡ ((look d w).0, some timeout)
  unfolding wait_from
  wait_from-past deadline n consecutive w h = rw h refl

  -- A round whose continuations agree.
  wait_from-round :
      (deadline n m consecutive : ℕ) (w : World)
      → ((c : ℕ)
          → let v = (read_touch_value d (look d w).0).0 in
            wait_from d threshold touched deadline m c v
            ≡ wait_from d threshold touched deadline n c v)
      → wait_from d threshold touched deadline (suc m) consecutive w
        ≡ wait_from d threshold touched deadline (suc n) consecutive w
  unfolding wait_from
  wait_from-round deadline n m consecutive w h =
      let again = h (consecutive + 1) in
      let anew = h 0 in
      elim (Reading-cases (d.readings w.read)) [
        | inl (v, e) ↦ rw e (ground (arith, again, anew))
        | inr (x, e) ↦ rw e refl
      ]

module _ (d : Driver) (clock : ℕ → ℕ) (first : ℕ) (a : Advances d clock first) where
  module _ (threshold : ℕ) (touched : Bool) where
    both_past :
        (deadline n m consecutive : ℕ) (w : World)
        → deadline ≤ clock w.looked
        → clock w.looked ≤ deadline + 2 ^ 30
        → wait_from d threshold touched (deadline % 2 ^ 32) (suc m) consecutive w
          ≡ wait_from d threshold touched (deadline % 2 ^ 32) (suc n) consecutive w
    both_past deadline n m consecutive w h k =
        let off : before_deadline (deadline % 2 ^ 32) (d.ticks w.looked) ≡ false =
          ap (λ now. before_deadline (deadline % 2 ^ 32) now) (a.ticks w.looked)
          ∙ past_deadline deadline (clock w.looked) h k in
        wait_from-past d threshold touched (deadline % 2 ^ 32) m consecutive w off
        ∙ sym (wait_from-past d threshold touched (deadline % 2 ^ 32) n consecutive w off)

    -- Where the fuel lasts until the deadline, more fuel changes nothing.
    wait_from-enough :
        (deadline n m consecutive : ℕ) (w : World)
        → n ≤ m
        → first < w.looked
        → deadline ≤ clock w.looked + n
        → clock w.looked ≤ deadline + 2 ^ 30
        → wait_from d threshold touched (deadline % 2 ^ 32) (suc m) consecutive w
          ≡ wait_from d threshold touched (deadline % 2 ^ 32) (suc n) consecutive w
    wait_from-enough deadline zero m consecutive w le l h k =
        both_past deadline zero m consecutive w (omega (arith, h)) k
    wait_from-enough deadline (suc n) zero consecutive w le l h k = absurd (omega (arith, le))
    wait_from-enough deadline (suc n) (suc m) consecutive w le l h k =
        elim (Bool-cases (leb deadline (clock w.looked))) [
          | inl past ↦
              both_past deadline (suc n) (suc m) consecutive w
                (leb→le deadline (clock w.looked) past) k
          | inr before ↦
              let b : clock w.looked < deadline = ground (arith, before) in
              wait_from-round d threshold touched (deadline % 2 ^ 32) (suc n) (suc m) consecutive w
                (λ c.
                  wait_from-enough deadline n m c (read_touch_value d (look d w).0).0
                    (omega (arith, le)) (omega (arith, l)) (omega (arith, h, a.later w.looked l))
                    (omega (arith, b, a.near w.looked)))
        ]

pub wait_for_state-rounds :
    (d : Driver) (threshold : ℕ) (touched : Bool) (timeout_ms : ℕ) (w : World)
    → wait_for_state d threshold touched timeout_ms w
      ≡ wait_from d threshold touched
          (add32 (d.ticks w.looked) (ms_to_ticks d timeout_ms))
          (suc (ms_to_ticks d timeout_ms))
          0
          (look d w).0
unfolding wait_for_state
wait_for_state-rounds d threshold touched timeout_ms w = refl

-- While the clock goes on between two looks of the loop, by at most 2 ^ 30 ticks, the wait ends by
-- itself: with more rounds than one for each tick of its time it does the same.
pub wait_for_state-ends :
    (d : Driver) (clock : ℕ → ℕ) (threshold : ℕ) (touched : Bool) (timeout_ms more : ℕ) (w : World)
    → Advances d clock w.looked
    → wait_from d threshold touched
        (add32 (d.ticks w.looked) (ms_to_ticks d timeout_ms))
        (suc (ms_to_ticks d timeout_ms + more))
        0
        (look d w).0
      ≡ wait_for_state d threshold touched timeout_ms w
wait_for_state-ends d clock threshold touched timeout_ms more w a =
    let ticks = ms_to_ticks d timeout_ms in
    let wrapped : add32 (d.ticks w.looked) ticks ≡ (clock w.looked + ticks) % 2 ^ 32 =
      ap (λ now. add32 now ticks) (a.ticks w.looked) ∙ add32-mod (clock w.looked) ticks in
    let enough =
      wait_from-enough d clock w.looked a threshold touched (clock w.looked + ticks) ticks
        (ticks + more) 0 (look d w).0 (omega arith) (omega arith) (omega (arith, a.begins))
        (omega (arith, a.near w.looked)) in
    subst
      (λ deadline.
        wait_from d threshold touched deadline (suc (ticks + more)) 0 (look d w).0
        ≡ wait_from d threshold touched deadline (suc ticks) 0 (look d w).0)
      (sym wrapped) enough
    ∙ sym (wait_for_state-rounds d threshold touched timeout_ms w)

-- The reading is a value that matches.
abbrev pub IsMatch : ℕ → Bool → Reading → Type 0
IsMatch threshold touched (value v) = matches threshold touched v ≡ true
IsMatch threshold touched (unread e) = ⊥

-- The last `c` readings match.
abbrev pub Recent : Driver → ℕ → Bool → ℕ → World → Type 0
Recent d threshold touched c w =
    (k : ℕ) → k < c → IsMatch threshold touched (d.readings (w.read - suc k))

module _ (d : Driver) (threshold : ℕ) (touched : Bool) where
  Recent-more :
      (c v : ℕ) (w u : World)
      → u.read ≡ w.read + 1
      → d.readings w.read ≡ value v
      → matches threshold touched v ≡ true
      → Recent d threshold touched c w
      → Recent d threshold touched (c + 1) u
  Recent-more c v w u e r m h zero l =
      let at : u.read - 1 ≡ w.read = omega (arith, e) in
      subst (λ i. IsMatch threshold touched (d.readings i)) (sym at)
        (subst (IsMatch threshold touched) (sym r) m)
  Recent-more c v w u e r m h (suc k) l =
      let at : u.read - suc (suc k) ≡ w.read - suc k = omega (arith, e) in
      subst (λ i. IsMatch threshold touched (d.readings i)) (sym at) (h k (omega (arith, l)))

  -- What a round that leads to success does.
  abbrev pub Continues : ℕ → ℕ → ℕ → World → ℕ → Type 0
  Continues deadline n c w v =
      let u = (read_touch_value d (look d w).0).0 in
      let all = wait_from d threshold touched deadline (suc n) c w in
      ((matches threshold touched v ≡ true) × (3 ≤ c + 1) × (all ≡ (u, none)))
      ⊎ (((matches threshold touched v ≡ true)
            × (c + 1 ≤ 2)
            × (all ≡ wait_from d threshold touched deadline n (c + 1) u))
          ⊎ (all ≡ wait_from d threshold touched deadline n 0 u))

  pub wait_from-Continues :
      (deadline n c : ℕ) (w : World)
      → (wait_from d threshold touched deadline (suc n) c w).1 ≡ none
      → (v : ℕ) × (d.readings w.read ≡ value v) × Continues deadline n c w v
  unfolding wait_from
  wait_from-Continues deadline n c w h = elim (Reading-cases (d.readings w.read)) [
    | inl (v, e) ↦ (v, e, ground (arith, e, h))
    | inr (x, e) ↦ absurd (ground (arith, e, h))
  ]

  wait_from-Recent :
      (deadline n c : ℕ) (w : World)
      → c ≤ 2
      → Recent d threshold touched c w
      → (wait_from d threshold touched deadline n c w).1 ≡ none
      → Recent d threshold touched 3 (wait_from d threshold touched deadline n c w).0
  unfolding wait_from
  wait_from-Recent deadline zero c w l r h = absurd (ground (arith, h))
  wait_from-Recent deadline (suc n) c w l r h =
      let u = (read_touch_value d (look d w).0).0 in
      let (v, e, next) = wait_from-Continues deadline n c w h in
      let again = wait_from-Recent deadline n (c + 1) u in
      let anew = wait_from-Recent deadline n 0 u in
      elim next [
        | inl (m, l', done) ↦
            subst (λ (x : World × Option Err). Recent d threshold touched 3 x.0) (sym done)
              (subst (λ c. Recent d threshold touched c u) (omega (arith, l, l'))
                (Recent-more c v w u refl e m r))
        | inr (inl (m, l', continues)) ↦
            subst (λ (x : World × Option Err). x.1 ≡ none → Recent d threshold touched 3 x.0)
              (sym continues) (again l' (Recent-more c v w u refl e m r)) h
        | inr (inr continues) ↦
            subst (λ (x : World × Option Err). x.1 ≡ none → Recent d threshold touched 3 x.0)
              (sym continues) (anew (omega arith) (λ k k_lt. absurd (omega (arith, k_lt)))) h
      ]

  -- A wait succeeds only after three readings in a row that match.
  pub wait_for_state-Recent :
      (timeout_ms : ℕ) (w : World)
      → (wait_for_state d threshold touched timeout_ms w).1 ≡ none
      → Recent d threshold touched 3 (wait_for_state d threshold touched timeout_ms w).0
  wait_for_state-Recent timeout_ms w h =
      subst (λ (x : World × Option Err). x.1 ≡ none → Recent d threshold touched 3 x.0)
        (sym (wait_for_state-rounds d threshold touched timeout_ms w))
        (wait_from-Recent (add32 (d.ticks w.looked) (ms_to_ticks d timeout_ms))
          (suc (ms_to_ticks d timeout_ms)) 0 (look d w).0 (omega arith)
          (λ k l. absurd (omega (arith, l))))
        h
