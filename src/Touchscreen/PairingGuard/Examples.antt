-- ===== src/Touchscreen/PairingGuard/Examples.antt =====
-- A display whose first slot drops its pairing.
use keg_scale_espdisplay.Prelude.{
  ◌+◌, ◌≤◌, ◌<◌, ◌≡◌, refl, ◌⊎◌, Bool, true, false, [], ◌∷◌, arith, All, pos,
}
use keg_scale_espdisplay.Touchscreen.PairingGuard.{
  idle, verify_removal, SlotState, no_slot, PendingCleanup, no_cleanup, found, not_found, Nvs,
  Remote, remove, rearm, notice, Guard, new_guard, guard_loaded, guard_round,
}
use keg_scale_espdisplay.Touchscreen.PairingGuard.Safety.{
  Unpaired, Justified, guard_loaded-Justified,
}
use keg_scale_espdisplay.Touchscreen.PairingGuard.Limits.{serve_all, serve_all-gives_up}

abbrev answer : Bool → Bool → Bool → Remote
answer ok paired open_window = record {
  response = record {
    ok = ok;
    http_status = 200;
    bytes_received = pos 40;
    json_valid = true;
    has_paired = true;
    has_seconds = true;
    paired = paired;
    connected = false;
    pending = false;
    seconds_positive = open_window;
  };
  remove_ok = true;
  remove_status = 200;
  queue_ok = true;
}

abbrev scale : Bool → SlotState
scale paired = record { host = 107 ∷ 101 ∷ 103 ∷ []; paired = paired }

abbrev profiles : Bool → Nvs
profiles paired = record { opened = true; primary = found (scale paired); secondary = not_found }

abbrev silent : Remote
silent = answer false false false

abbrev first_round : Guard
first_round = (guard_round (profiles true) silent silent new_guard).0

-- The scale still has the pairing, so it is removed.
removes :
    (guard_round (profiles false) (answer true true false) silent first_round).1
    ≡ remove (107 ∷ 101 ∷ 103 ∷ []) ∷ []
unfolding guard_round guard_loaded
removes = refl

-- The pairing is gone on both sides, and the window opens a round later.
rearms :
    (let g = (guard_round (profiles false) (answer true false false) silent first_round).0 in
      (guard_round (profiles false) (answer true false true) silent g).1)
    ≡ rearm 0 ∷ []
unfolding guard_round guard_loaded
rearms = refl

guard_loaded-Justified_example :
    let k₀ = notice first_round.previous_0 (scale false) first_round.cleanup_0 in
    let k₁ = notice first_round.previous_1 no_slot first_round.cleanup_1 in
    Unpaired (scale false) k₀
    × Unpaired no_slot k₁
    × All
        (λ e. Justified 0 (answer true true false) k₀ e ⊎ Justified 1 silent k₁ e)
        (guard_loaded (scale false, no_slot) (answer true true false) silent first_round).1
guard_loaded-Justified_example =
    guard_loaded-Justified (scale false) no_slot (answer true true false) silent first_round

abbrev verifying : PendingCleanup
verifying = record no_cleanup { phase = verify_removal; host = 107 ∷ []; cleanup_attempts = 58 }

serve_all-gives_up_example :
    (58 + 2 < 60
      → ((serve_all 0 (silent ∷ silent ∷ []) verifying).phase ≡ verify_removal)
        × ((serve_all 0 (silent ∷ silent ∷ []) verifying).cleanup_attempts ≡ 58 + 2))
    × (60 ≤ 58 + 2 → (serve_all 0 (silent ∷ silent ∷ []) verifying).phase ≡ idle)
serve_all-gives_up_example =
    serve_all-gives_up 0 (silent ∷ silent ∷ []) verifying refl (omega arith) (refl, (refl, tt))
