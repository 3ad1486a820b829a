-- ===== src/Touchscreen/PairingGuard/Limits.antt =====
-- pairing_guard.cpp: the cleanup gives up after a bounded number of rounds.
use keg_scale_espdisplay.Prelude.{
  ℕ, ◌+◌, ◌≤◌, ◌<◌, ◌≡◌, inl, inr, false, Option, none, some, List, [], ◌∷◌, arith, ltb,
  if◌then◌else◌, ltb→lt, Bool-cases, length, All,
}
use keg_scale_espdisplay.Touchscreen.PairingGuard.Safety.{serve_cases}
use keg_scale_espdisplay.Touchscreen.PairingGuard.{
  max_cleanup_attempts, idle, verify_removal, wait_for_window, is_idle, SlotState, PendingCleanup,
  Nvs, load_slot_states, RemoteControllerStatus, Remote, read_remote_status, start_cleanup,
  wait_for_pair_window, start_if_lost, cancel_if_paired, notice, unreachable, verify, watch, serve,
  Guard, guard_loaded, guard_if, guard_round,
}

-- A cleanup that still verifies has made fewer than 60 attempts.
abbrev pub WithinLimit : PendingCleanup → Type 0
WithinLimit k = (k.phase ≡ verify_removal) → k.cleanup_attempts < max_cleanup_attempts

notice-WithinLimit :
    (previous current : SlotState) (k : PendingCleanup)
    → WithinLimit k
    → WithinLimit (notice previous current k)
unfolding start_if_lost cancel_if_paired start_cleanup
notice-WithinLimit previous current k w = λ h. ground arith

module _ (slot : ℕ) (m : Remote) (k : PendingCleanup) where
  unreachable-WithinLimit : WithinLimit (unreachable k)
  unfolding unreachable
  unreachable-WithinLimit h = ground arith

  verify-WithinLimit : (s : RemoteControllerStatus) → WithinLimit (verify m s k).0
  unfolding verify wait_for_pair_window
  verify-WithinLimit s h = ground arith

  watch-WithinLimit :
      (s : RemoteControllerStatus) → k.phase ≡ wait_for_window → WithinLimit (watch slot m s k).0
  unfolding watch wait_for_pair_window
  watch-WithinLimit s p h = ground arith

  serve-WithinLimit : WithinLimit k → WithinLimit (serve slot m k).0
  serve-WithinLimit w = elim (serve_cases slot m k) [
    | inl e ↦ rw e w
    | inr (inl e) ↦ rw e unreachable-WithinLimit
    | inr (inr (s, f, i, inl (p, e))) ↦ rw e (verify-WithinLimit s)
    | inr (inr (s, f, i, inr (p, e))) ↦ rw e (watch-WithinLimit s p)
  ]

  serve_unread :
      m.response.ok ≡ false → (serve slot m k).0 ≡ (if is_idle k.phase then k else unreachable k)
  unfolding serve read_remote_status
  serve_unread e = ground arith

-- The slot in a row of rounds, with what each round meets.
abbrev pub serve_all : ℕ → List Remote → PendingCleanup → PendingCleanup
serve_all slot [] k = k
serve_all slot (m ∷ ms) k = serve_all slot ms (serve slot m k).0

-- The status of the scale cannot be read.
abbrev pub IsUnread : Remote → Type 0
IsUnread m = m.response.ok ≡ false

serve_all_idle :
    (slot : ℕ) (ms : List Remote) (k : PendingCleanup)
    → All IsUnread ms
    → k.phase ≡ idle
    → (serve_all slot ms k).phase ≡ idle
serve_all_idle slot [] k a e = e
serve_all_idle slot (m ∷ ms) k a e =
    let f = serve_unread slot m k a.0 in
    serve_all_idle slot ms (serve slot m k).0 a.1 (ground (arith, f))

serve-verify :
    (slot : ℕ) (m : Remote) (k : PendingCleanup)
    → k.phase ≡ verify_removal
    → IsUnread m
    → (k.cleanup_attempts + 1 < max_cleanup_attempts
        → ((serve slot m k).0.phase ≡ verify_removal)
          × ((serve slot m k).0.cleanup_attempts ≡ k.cleanup_attempts + 1))
      × (max_cleanup_attempts ≤ k.cleanup_attempts + 1 → (serve slot m k).0.phase ≡ idle)
unfolding unreachable
serve-verify slot m k p u = ground (arith, serve_unread slot m k u)

-- While the scale cannot be reached, a cleanup that verifies goes on until it has made 60 attempts,
-- and then it has ended.
pub serve_all-gives_up :
    (slot : ℕ) (ms : List Remote) (k : PendingCleanup)
    → k.phase ≡ verify_removal
    → k.cleanup_attempts < max_cleanup_attempts
    → All IsUnread ms
    → (k.cleanup_attempts + length ms < max_cleanup_attempts
        → ((serve_all slot ms k).phase ≡ verify_removal)
          × ((serve_all slot ms k).cleanup_attempts ≡ k.cleanup_attempts + length ms))
      × (max_cleanup_attempts ≤ k.cleanup_attempts + length ms → (serve_all slot ms k).phase ≡ idle)
serve_all-gives_up slot [] k p l a = (λ h. (p, omega arith), λ h. absurd (omega arith))
serve_all-gives_up slot (m ∷ ms) k p l a =
    let k₁ = (serve slot m k).0 in
    let (goes, ends) = serve-verify slot m k p a.0 in
    elim (Bool-cases (ltb (k.cleanup_attempts + 1) max_cleanup_attempts)) [
      | inl e ↦
          let h = ltb→lt (k.cleanup_attempts + 1) max_cleanup_attempts e in
          let (q, n) = goes h in
          let rest = serve_all-gives_up slot ms k₁ q (omega arith) a.1 in
          (λ j. (let (x, y) = rest.0 (omega arith) in (x, omega arith)), λ j. rest.1 (omega arith))
      | inr e ↦
          let h : max_cleanup_attempts ≤ k.cleanup_attempts + 1 = ground arith in
          (λ j. absurd (omega arith), λ j. serve_all_idle slot ms k₁ a.1 (ends h))
    ]

guard_loaded-WithinLimit :
    (c : SlotState × SlotState) (m₀ m₁ : Remote) (g : Guard)
    → WithinLimit g.cleanup_0
    → WithinLimit g.cleanup_1
    → (let g' = (guard_loaded c m₀ m₁ g).0 in WithinLimit g'.cleanup_0 × WithinLimit g'.cleanup_1)
unfolding guard_loaded
guard_loaded-WithinLimit (c₀, c₁) m₀ m₁ g w₀ w₁ =
    let n₀ = notice-WithinLimit g.previous_0 c₀ g.cleanup_0 w₀ in
    let n₁ = notice-WithinLimit g.previous_1 c₁ g.cleanup_1 w₁ in
    let s₀ = serve-WithinLimit 0 m₀ (notice g.previous_0 c₀ g.cleanup_0) n₀ in
    let s₁ = serve-WithinLimit 1 m₁ (notice g.previous_1 c₁ g.cleanup_1) n₁ in
    elim (Bool-cases g.initialized) [ inl i ↦ rw i (s₀, s₁) | inr i ↦ rw i (w₀, w₁) ]

-- Whatever the storage and the scales answer, a round leaves no slot that verifies a removal with
-- 60 attempts or more.
pub guard_round-WithinLimit :
    (n : Nvs) (m₀ m₁ : Remote) (g : Guard)
    → WithinLimit g.cleanup_0
    → WithinLimit g.cleanup_1
    → (let g' = (guard_round n m₀ m₁ g).0 in WithinLimit g'.cleanup_0 × WithinLimit g'.cleanup_1)
unfolding guard_round
guard_round-WithinLimit n m₀ m₁ g w₀ w₁ = loaded (load_slot_states n)
  where
    loaded :
        (o : Option (SlotState × SlotState))
        → (let g' = (guard_if o m₀ m₁ g).0 in WithinLimit g'.cleanup_0 × WithinLimit g'.cleanup_1)
    loaded none = (w₀, w₁)
    loaded (some c) = guard_loaded-WithinLimit c m₀ m₁ g w₀ w₁
