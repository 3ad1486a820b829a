-- ===== src/Touchscreen/PairingGuard.antt =====
-- touchscreen/main/pairing_guard.cpp: the task that clears a pairing on the scale after the display
-- has dropped it. The NVS, the HTTP client and the queue of actions are code outside the file: what
-- they return in a round is an argument. Texts are lists of characters.
use keg_scale_espdisplay.Prelude.{
  ℕ, ◌+◌, Bool, true, false, not, ◌&&◌, ◌||◌, Option, none, some, List, [], ◌∷◌, ◌++◌, ltb, leb,
  ◌==◌, if◌then◌else◌, take, same_text, ℤ, pos, negsuc, is_empty,
}
pub mod Safety
pub mod Limits
pub mod Examples

abbrev pub max_cleanup_attempts : ℕ
max_cleanup_attempts = 60

abbrev pub max_pair_window_polls : ℕ
max_pair_window_polls = 300

pub data CleanupPhase : Type 0 where
  idle : CleanupPhase
  verify_removal : CleanupPhase
  wait_for_window : CleanupPhase

abbrev pub is_idle : CleanupPhase → Bool
is_idle idle = true
is_idle _ = false

abbrev pub is_verify : CleanupPhase → Bool
is_verify verify_removal = true
is_verify _ = false

pub record SlotState : Type 0 where
  pub host : List ℕ
  pub paired : Bool

abbrev pub no_slot : SlotState
no_slot = record { host = []; paired = false }

pub record PendingCleanup : Type 0 where
  pub phase : CleanupPhase
  pub host : List ℕ
  pub cleanup_attempts : ℕ
  pub pair_window_polls : ℕ

abbrev pub no_cleanup : PendingCleanup
no_cleanup = record { phase = idle; host = []; cleanup_attempts = 0; pair_window_polls = 0 }

-- What the NVS gives for a profile.
pub data Blob : Type 0 where
  found : SlotState → Blob
  wrong_size : Blob
  not_found : Blob
  failed : Blob

pub record Nvs : Type 0 where
  pub opened : Bool
  pub primary : Blob
  pub secondary : Blob

-- `snprintf` into the 128 bytes of a host.
unfoldable pub copy_host : SlotState → SlotState
copy_host s = record { host = take 127 s.host; paired = s.paired }

abbrev pub load_secondary : SlotState → Blob → Option (SlotState × SlotState)
load_secondary first failed = none
load_secondary first (found s) = some (first, copy_host s)
load_secondary first wrong_size = some (first, no_slot)
load_secondary first not_found = some (first, no_slot)

abbrev pub load_primary : Blob → Blob → Option (SlotState × SlotState)
load_primary (found s) b = load_secondary (copy_host s) b
load_primary wrong_size b = none
load_primary not_found b = none
load_primary failed b = none

unfoldable pub load_slot_states : Nvs → Option (SlotState × SlotState)
unfolding copy_host
load_slot_states n = if not n.opened then none else load_primary n.primary n.secondary

-- `ControllerSetupResponse` and the result of `controller_setup_get`; of `seconds`, a double, only
-- `seconds > 0` is asked.
pub record Response : Type 0 where
  pub ok : Bool
  pub http_status : ℕ
  pub bytes_received : ℤ
  pub json_valid : Bool
  pub has_paired : Bool
  pub has_seconds : Bool
  pub paired : Bool
  pub connected : Bool
  pub pending : Bool
  pub seconds_positive : Bool

pub record RemoteControllerStatus : Type 0 where
  pub paired : Bool
  pub connected : Bool
  pub pending : Bool
  pub seconds_positive : Bool

-- What a slot meets in a round: the answer to the GET, the result and status of the POST, and
-- whether the queue of actions has room.
pub record Remote : Type 0 where
  pub response : Response
  pub remove_ok : Bool
  pub remove_status : ℕ
  pub queue_ok : Bool

-- What a round sends: a POST to a scale, and an action `pairing_rearm` for a slot.
pub data Effect : Type 0 where
  remove : List ℕ → Effect
  rearm : ℕ → Effect

abbrev pub is_positive : ℤ → Bool
is_positive (pos n) = ltb 0 n
is_positive (negsuc n) = false

unfoldable pub read_remote_status : List ℕ → Response → Option RemoteControllerStatus
read_remote_status host r =
    if is_empty host
    then none
    else if not r.ok
        || not (r.http_status == 200)
        || not (is_positive r.bytes_received)
        || not r.json_valid
        || not r.has_paired
        || not r.has_seconds
    then none
    else some (record {
      paired = r.paired;
      connected = r.connected;
      pending = r.pending;
      seconds_positive = r.seconds_positive;
    })

unfoldable pub remove_remote_pairing : List ℕ → Remote → Bool × List Effect
remove_remote_pairing host m =
    if is_empty host then (false, []) else (m.remove_ok && m.remove_status == 200, remove host ∷ [])

unfoldable pub start_cleanup : List ℕ → PendingCleanup → PendingCleanup
start_cleanup host k =
    if is_empty host then k else record no_cleanup { phase = verify_removal; host = take 127 host }

unfoldable pub wait_for_pair_window : PendingCleanup → PendingCleanup
wait_for_pair_window k = record k { phase = wait_for_window; pair_window_polls = 0 }

unfoldable pub rearm_connection_for_pairing : ℕ → Remote → Bool × List Effect
rearm_connection_for_pairing slot m = if m.queue_ok then (true, rearm slot ∷ []) else (false, [])

-- The first `if` of the first loop: a pairing that has gone starts a cleanup.
unfoldable pub start_if_lost : SlotState → SlotState → PendingCleanup → PendingCleanup
unfolding start_cleanup
start_if_lost previous current k =
    if previous.paired && not current.paired && not (is_empty previous.host)
    then start_cleanup previous.host k
    else k

-- Its second `if`: a pairing that is back cancels the cleanup.
unfoldable pub cancel_if_paired : SlotState → PendingCleanup → PendingCleanup
cancel_if_paired current k =
    if not (is_idle k.phase) && current.paired && same_text current.host k.host
    then no_cleanup
    else k

abbrev pub notice : SlotState → SlotState → PendingCleanup → PendingCleanup
notice previous current k = cancel_if_paired current (start_if_lost previous current k)

-- The status could not be read.
unfoldable pub unreachable : PendingCleanup → PendingCleanup
unreachable k =
    if is_verify k.phase
    then (if leb max_cleanup_attempts (k.cleanup_attempts + 1)
        then no_cleanup
        else record k { cleanup_attempts = k.cleanup_attempts + 1 })
    else if leb max_pair_window_polls (k.pair_window_polls + 1)
    then no_cleanup
    else record k { pair_window_polls = k.pair_window_polls + 1 }

-- The phase VerifyRemoval with a status.
unfoldable pub verify :
    Remote → RemoteControllerStatus → PendingCleanup → PendingCleanup × List Effect
unfolding wait_for_pair_window remove_remote_pairing
verify m status k =
    if not status.paired
    then (wait_for_pair_window k, [])
    else let k₁ = record k { cleanup_attempts = k.cleanup_attempts + 1 } in
      let (ok, sent) = remove_remote_pairing k.host m in
      if ok
      then (wait_for_pair_window k₁, sent)
      else if leb max_cleanup_attempts k₁.cleanup_attempts
      then (no_cleanup, sent)
      else (k₁, sent)

-- The phase WaitForPairWindow with a status.
unfoldable pub watch :
    ℕ → Remote → RemoteControllerStatus → PendingCleanup → PendingCleanup × List Effect
unfolding wait_for_pair_window remove_remote_pairing rearm_connection_for_pairing
watch slot m status k =
    let k₁ = record k { pair_window_polls = k.pair_window_polls + 1 } in
    if status.paired
    then (let (ok, sent) = remove_remote_pairing k.host m in
        let k₂ = record k₁ { phase = verify_removal; cleanup_attempts = 0 } in
        if ok then (wait_for_pair_window k₂, sent) else (k₂, sent))
    else if status.seconds_positive
    then (let (queued, sent) = rearm_connection_for_pairing slot m in
        if queued then (no_cleanup, sent) else (k₁, sent))
    else if leb max_pair_window_polls k₁.pair_window_polls
    then (no_cleanup, [])
    else (k₁, [])

-- The body of the second loop for one slot.
unfoldable pub serve : ℕ → Remote → PendingCleanup → PendingCleanup × List Effect
unfolding read_remote_status unreachable verify watch
serve slot m k = if is_idle k.phase then (k, []) else elim (read_remote_status k.host m.response) [
  | none ↦ (unreachable k, [])
  | some status ↦ if is_verify k.phase then verify m status k else watch slot m status k
]

-- The variables of `pairing_guard_task`.
pub record Guard : Type 0 where
  pub initialized : Bool
  pub previous_0 : SlotState
  pub previous_1 : SlotState
  pub cleanup_0 : PendingCleanup
  pub cleanup_1 : PendingCleanup

abbrev pub new_guard : Guard
new_guard = record {
  initialized = false;
  previous_0 = no_slot;
  previous_1 = no_slot;
  cleanup_0 = no_cleanup;
  cleanup_1 = no_cleanup;
}

-- A round once the slots are loaded.
unfoldable pub guard_loaded : SlotState × SlotState → Remote → Remote → Guard → Guard × List Effect
unfolding start_if_lost cancel_if_paired serve
guard_loaded (c₀, c₁) m₀ m₁ g =
    let seen = record g { initialized = true; previous_0 = c₀; previous_1 = c₁ } in
    if not g.initialized
    then (seen, [])
    else let (k₀, e₀) = serve 0 m₀ (notice g.previous_0 c₀ g.cleanup_0) in
      let (k₁, e₁) = serve 1 m₁ (notice g.previous_1 c₁ g.cleanup_1) in
      (record seen { cleanup_0 = k₀; cleanup_1 = k₁ }, e₀ ++ e₁)

abbrev pub guard_if : Option (SlotState × SlotState) → Remote → Remote → Guard → Guard × List Effect
guard_if none m₀ m₁ g = (g, [])
guard_if (some c) m₀ m₁ g = guard_loaded c m₀ m₁ g

-- One round of `pairing_guard_task`.
unfoldable pub guard_round : Nvs → Remote → Remote → Guard → Guard × List Effect
unfolding load_slot_states
guard_round n m₀ m₁ g = guard_if (load_slot_states n) m₀ m₁ g
