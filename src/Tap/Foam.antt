-- ===== src/Tap/Foam.antt =====
-- touchpour/components/tap_control/foam_capture.h and foam_capture.cpp: the recording of distance
-- readings. `rows[0 .. count)` is the list of rows in order. Each function of foam_capture.cpp
-- holds the mutex from its first statement to its last, so it is one step.
use keg_scale_espdisplay.Prelude.{
  ℕ, zero, suc, ◌+◌, ◌*◌, ◌%◌, ◌^◌, bit_or, Bool, true, false, not, ◌&&◌, ◌||◌, Option, none, List,
  [], ◌∷◌, ◌++◌, ltb, leb, ◌==◌, if◌then◌else◌, bit, length, get_elem?, sub32, is_neg32, ℤ, pos,
  diff,
}
use keg_scale_espdisplay.Tap.Settings.{Settings, Sample}
use keg_scale_espdisplay.Tap.Control.{Reason}
pub mod Laws
pub mod Examples

-- The `int16_t` fields hold the low 16 bits.
pub record FoamRow : Type 0 where
  pub elapsed_ms : ℕ
  pub sequence : ℕ
  pub age_ms : ℕ
  pub interval_ms : ℕ
  pub mm : ℕ
  pub delta_mm : ℤ
  pub status : ℕ
  pub servo_us : ℕ
  pub cutoff_mm : ℕ
  pub tray_mm : ℕ
  pub flags : ℕ
  pub markers : ℕ
  pub stable_samples : ℕ
  pub reason : Reason
  pub filtered_mm : ℕ
  pub filtered_valid : Bool

abbrev pub capacity : ℕ
capacity = 3000

abbrev pub duration_ms : ℕ
duration_ms = 300000

pub record FoamCapture : Type 0 where
  pub rows : List FoamRow
  pub active : Bool
  pub started : ℕ
  pub ended : ℕ
  pub seen : Bool
  pub previous_valid : Bool
  pub pending_button : Bool
  pub last_sequence : ℕ
  pub previous_at : ℕ
  pub previous_mm : ℕ
  pub pending_markers : ℕ

abbrev pub new_capture : FoamCapture
new_capture = record {
  rows = [];
  active = false;
  started = 0;
  ended = 0;
  seen = false;
  previous_valid = false;
  pending_button = false;
  last_sequence = 0;
  previous_at = 0;
  previous_mm = 0;
  pending_markers = 0;
}

unfoldable pub start : ℕ → FoamCapture → FoamCapture
start now k = record k {
  rows = [];
  started = now;
  ended = now;
  active = true;
  seen = false;
  previous_valid = false;
  pending_button = false;
  pending_markers = 0;
}

unfoldable pub stop : ℕ → FoamCapture → FoamCapture
stop now k = if k.active then record k { active = false; ended = now } else k

unfoldable pub elapsed : ℕ → FoamCapture → ℕ
unfolding sub32
elapsed now k = sub32 (if k.active then now else k.ended) k.started

unfoldable pub mark : ℕ → FoamCapture → FoamCapture × Bool
mark marker k =
    if not k.active
    then (k, false)
    else (record k { pending_markers = bit_or k.pending_markers marker }, true)

-- The arguments of `observe` and of `foam_observe`.
pub record Observation : Type 0 where
  pub s : Sample
  pub c : Settings
  pub now : ℕ
  pub servo : ℕ
  pub pouring : Bool
  pub is_ready : Bool
  pub test : Bool
  pub button : Bool
  pub stable : ℕ
  pub reason : Reason
  pub manual_hold : Bool

-- VALID, DELTA_VALID, POURING, READY, SERVO_TEST and BUTTON are different bits, so `|` is a sum.
unfoldable pub flags_of : Observation → FoamCapture → ℕ
flags_of o k =
    bit o.s.valid
    + 2 * bit (o.s.valid && k.previous_valid)
    + 4 * bit o.pouring
    + 8 * bit o.is_ready
    + 16 * bit o.test
    + 32 * bit k.pending_button

-- The initializer of `rows[count++]`.
unfoldable pub row_of : Observation → FoamCapture → FoamRow
unfolding sub32 diff flags_of
row_of o k = record {
  elapsed_ms = sub32 o.s.at k.started;
  sequence = o.s.sequence;
  age_ms = sub32 o.now o.s.at;
  interval_ms = if length k.rows == 0 then 0 else sub32 o.s.at k.previous_at;
  mm = o.s.mm;
  delta_mm = if o.s.valid && k.previous_valid then diff o.s.mm k.previous_mm else pos 0;
  status = o.s.status % 2 ^ 16;
  servo_us = o.servo % 2 ^ 16;
  cutoff_mm = o.c.stop_mm % 2 ^ 16;
  tray_mm = o.c.tray_mm % 2 ^ 16;
  flags = flags_of o k;
  markers = k.pending_markers;
  stable_samples = 0;
  reason = o.reason;
  filtered_mm = o.s.filtered_mm;
  filtered_valid = o.s.filtered_valid;
}

-- The rest of `observe`, for a sample that is recorded.
unfoldable pub append_row : Observation → FoamCapture → FoamCapture
unfolding row_of stop
append_row o k =
    let k₁ = record k {
      rows = k.rows ++ row_of o k ∷ [];
      seen = true;
      last_sequence = o.s.sequence;
      previous_valid = o.s.valid;
      previous_at = o.s.at;
      previous_mm = o.s.mm;
      pending_button = false;
      pending_markers = 0;
    } in
    if length k₁.rows == capacity then stop o.now k₁ else k₁

-- The sample was taken before the start, or is the one recorded last.
unfoldable pub is_old : Observation → FoamCapture → Bool
unfolding sub32 is_neg32
is_old o k = is_neg32 (sub32 o.s.at k.started) || (k.seen && o.s.sequence == k.last_sequence)

unfoldable pub observe : Observation → FoamCapture → FoamCapture
unfolding append_row is_old stop sub32
observe o k =
    if not k.active
    then k
    else if leb duration_ms (sub32 o.now k.started) || (length k.rows == capacity)
    then stop o.now k
    else let k' = record k { pending_button = k.pending_button || o.button } in
      if is_old o k' then k' else append_row o k'

pub record FoamStatus : Type 0 where
  pub active : Bool
  pub count : ℕ
  pub elapsed_ms : ℕ

abbrev pub foam_start : ℕ → FoamCapture → FoamCapture
foam_start now k = start now k

abbrev pub foam_stop : ℕ → FoamCapture → FoamCapture
foam_stop now k = stop now k

abbrev pub foam_mark : ℕ → FoamCapture → FoamCapture × Bool
foam_mark marker k = mark marker k

unfoldable pub foam_status : ℕ → FoamCapture → FoamStatus
unfolding elapsed
foam_status now k = record { active = k.active; count = length k.rows; elapsed_ms = elapsed now k }

unfoldable pub foam_row : ℕ → FoamCapture → Option FoamRow
foam_row index k = if ltb index (length k.rows) then get_elem? k.rows index else none

-- The fields that `foam_observe` writes into the row that `observe` has added. MANUAL_HOLD is a bit
-- that `observe` never sets.
unfoldable pub complete : Observation → FoamRow → FoamRow
complete o r = record r {
  stable_samples = o.stable % 2 ^ 8;
  flags = if o.manual_hold then r.flags + 64 else r.flags;
}

-- The writes into `capture.rows[i]`.
abbrev pub complete_at : Observation → ℕ → List FoamRow → List FoamRow
complete_at o i [] = []
complete_at o zero (r ∷ rows) = complete o r ∷ rows
complete_at o (suc i) (r ∷ rows) = r ∷ complete_at o i rows

unfoldable pub foam_observe : Observation → FoamCapture → FoamCapture
unfolding observe complete
foam_observe o k =
    let before = length k.rows in
    let k' = observe o k in
    if length k'.rows == before then k' else record k' { rows = complete_at o before k'.rows }
