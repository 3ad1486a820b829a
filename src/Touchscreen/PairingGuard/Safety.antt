-- ===== src/Touchscreen/PairingGuard/Safety.antt =====
-- pairing_guard.cpp: a pairing that is in use is never removed.
use keg_scale_espdisplay.Prelude.{
  ℕ, ◌≡◌, refl, sym, ◌∙◌, ◌⊎◌, inl, inr, true, false, Option, none, some, List, [], ◌∷◌, arith,
  Bool-cases, All, All-append, same_text, All-map,
}
use keg_scale_espdisplay.Touchscreen.PairingGuard.{
  CleanupPhase, idle, verify_removal, wait_for_window, is_idle, SlotState, PendingCleanup, Response,
  RemoteControllerStatus, Remote, Effect, remove, rearm, read_remote_status, remove_remote_pairing,
  rearm_connection_for_pairing, start_if_lost, cancel_if_paired, notice, unreachable, verify, watch,
  serve, Guard, guard_loaded,
}

-- The slot is not paired now with the scale that the cleanup is about.
abbrev pub Unpaired : SlotState → PendingCleanup → Type 0
Unpaired current k =
    (k.phase ≡ idle) ⊎ ((current.paired ≡ false) ⊎ (same_text current.host k.host ≡ false))

-- The effect is a POST to the host of the cleanup, whose scale has a pairing, or a request to
-- connect again for the slot, whose scale has none and has its pairing window open.
abbrev pub Justified : ℕ → Remote → PendingCleanup → Effect → Type 0
Justified slot m k (remove host) =
    (host ≡ k.host)
    × (is_idle k.phase ≡ false)
    × (m.response.ok ≡ true)
    × (m.response.paired ≡ true)
Justified slot m k (rearm s) =
    (s ≡ slot)
    × (k.phase ≡ wait_for_window)
    × (m.response.ok ≡ true)
    × (m.response.paired ≡ false)
    × (m.response.seconds_positive ≡ true)

is_idle-phase : (p : CleanupPhase) → is_idle p ≡ true → p ≡ idle
is_idle-phase idle e = refl
is_idle-phase verify_removal e = ground arith
is_idle-phase wait_for_window e = ground arith

cancel_if_paired-Unpaired :
    (current : SlotState) (k : PendingCleanup) → Unpaired current (cancel_if_paired current k)
unfolding cancel_if_paired
cancel_if_paired-Unpaired current k = ground (arith, is_idle-phase k.phase)

notice-Unpaired :
    (previous current : SlotState) (k : PendingCleanup)
    → Unpaired current (notice previous current k)
notice-Unpaired previous current k =
    cancel_if_paired-Unpaired current (start_if_lost previous current k)

read_remote_status-some :
    (host : List ℕ) (r : Response) (status : RemoteControllerStatus)
    → read_remote_status host r ≡ some status
    → (r.ok ≡ true) × (status.paired ≡ r.paired) × (status.seconds_positive ≡ r.seconds_positive)
unfolding read_remote_status
read_remote_status-some host r status e = ground arith

module _ (slot : ℕ) (m : Remote) (status : RemoteControllerStatus) (k : PendingCleanup) where
  verify-effects :
      ((verify m status k).1 ≡ [])
      ⊎ ((status.paired ≡ true) × ((verify m status k).1 ≡ remove k.host ∷ []))
  unfolding verify remove_remote_pairing
  verify-effects = ground arith

  watch-effects :
      ((watch slot m status k).1 ≡ [])
      ⊎ ((status.paired ≡ true) × ((watch slot m status k).1 ≡ remove k.host ∷ []))
      ⊎ ((status.paired ≡ false)
          × (status.seconds_positive ≡ true)
          × ((watch slot m status k).1 ≡ rearm slot ∷ []))
  unfolding watch remove_remote_pairing rearm_connection_for_pairing
  watch-effects = ground arith

pub serve_cases :
    (slot : ℕ) (m : Remote) (k : PendingCleanup)
    → (serve slot m k ≡ (k, []))
      ⊎ (serve slot m k ≡ (unreachable k, []))
      ⊎ ((status : RemoteControllerStatus) × (read_remote_status k.host m.response ≡ some status)
          × (is_idle k.phase ≡ false)
          × (((k.phase ≡ verify_removal) × (serve slot m k ≡ verify m status k))
              ⊎ ((k.phase ≡ wait_for_window) × (serve slot m k ≡ watch slot m status k))))
unfolding serve
serve_cases slot m k = phases k.phase refl (read_remote_status k.host m.response) refl
  where
    phases :
        (p : CleanupPhase)
        → k.phase ≡ p
        → (o : Option RemoteControllerStatus) → read_remote_status k.host m.response ≡ o
        → (serve slot m k ≡ (k, []))
          ⊎ (serve slot m k ≡ (unreachable k, []))
          ⊎ ((status : RemoteControllerStatus) × (read_remote_status k.host m.response
                ≡ some status)
              × (is_idle k.phase ≡ false)
              × (((k.phase ≡ verify_removal) × (serve slot m k ≡ verify m status k))
                  ⊎ ((k.phase ≡ wait_for_window) × (serve slot m k ≡ watch slot m status k))))
    phases idle e o f = inl (ground arith)
    phases verify_removal e none f = inr (inl (ground arith))
    phases wait_for_window e none f = inr (inl (ground arith))
    phases verify_removal e (some status) f =
        inr (inr (status, f, ground arith, inl (e, ground arith)))
    phases wait_for_window e (some status) f =
        inr (inr (status, f, ground arith, inr (e, ground arith)))

serve-Justified :
    (slot : ℕ) (m : Remote) (k : PendingCleanup) → All (Justified slot m k) (serve slot m k).1
serve-Justified slot m k = elim (serve_cases slot m k) [
  | inl e ↦ rw e tt
  | inr (inl e) ↦ rw e tt
  | inr (inr (status, f, i, inl (p, e))) ↦ rw e (
      let (a, b, _) = read_remote_status-some k.host m.response status f in
      elim (verify-effects slot m status k) [
        | inl n ↦ rw n tt
        | inr (q, n) ↦ rw n (((refl, i, a, sym b ∙ q)), tt)
      ])
  | inr (inr (status, f, i, inr (p, e))) ↦ rw e (
      let (a, b, c) = read_remote_status-some k.host m.response status f in
      elim (watch-effects slot m status k) [
        | inl n ↦ rw n tt
        | inr (inl (q, n)) ↦ rw n (((refl, i, a, sym b ∙ q)), tt)
        | inr (inr (q, z, n)) ↦ rw n ((refl, p, a, sym b ∙ q, sym c ∙ z), tt)
      ])
]

-- For both slots: what the round sends is justified by the slot's answer in the round, and the
-- cleanup that it belongs to is not about a scale that the slot is paired with.
pub guard_loaded-Justified :
    (c₀ c₁ : SlotState) (m₀ m₁ : Remote) (g : Guard)
    → (let k₀ = notice g.previous_0 c₀ g.cleanup_0 in
        let k₁ = notice g.previous_1 c₁ g.cleanup_1 in
        Unpaired c₀ k₀
        × Unpaired c₁ k₁
        × All (λ e. Justified 0 m₀ k₀ e ⊎ Justified 1 m₁ k₁ e) (guard_loaded (c₀, c₁) m₀ m₁ g).1)
unfolding guard_loaded
guard_loaded-Justified c₀ c₁ m₀ m₁ g =
    let k₀ = notice g.previous_0 c₀ g.cleanup_0 in
    let k₁ = notice g.previous_1 c₁ g.cleanup_1 in
    let P = λ (e : Effect). Justified 0 m₀ k₀ e ⊎ Justified 1 m₁ k₁ e in
    let a₀ = All-map (Justified 0 m₀ k₀) P (serve 0 m₀ k₀).1 (λ e. inl) (serve-Justified 0 m₀ k₀) in
    let a₁ = All-map (Justified 1 m₁ k₁) P (serve 1 m₁ k₁).1 (λ e. inr) (serve-Justified 1 m₁ k₁) in
    let sent : All P (guard_loaded (c₀, c₁) m₀ m₁ g).1 = elim (Bool-cases g.initialized) [
      | inl i ↦ rw i (All-append P (serve 0 m₀ k₀).1 (serve 1 m₁ k₁).1 a₀ a₁)
      | inr i ↦ rw i tt
    ] in
    (notice-Unpaired g.previous_0 c₀ g.cleanup_0, notice-Unpaired g.previous_1 c₁ g.cleanup_1, sent)
