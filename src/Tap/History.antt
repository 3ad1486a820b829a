-- ===== src/Tap/History.antt =====
-- touchpour/components/tap_control/pour_history.h and pour_history.cpp: the points of the pour that
-- goes on, and the summaries of the last pours. `points[0 .. pending.count)` is the list of points,
-- `headers` the six slots in order. The child Storage has the flash partition.
use keg_scale_espdisplay.Prelude.{
  ℕ, ◌-◌, ◌%◌, ◌^◌, Bool, true, false, not, ◌&&◌, ◌||◌, Option, none, some, List, [], ◌∷◌, ◌++◌,
  ltb, leb, ◌==◌, if◌then◌else◌, length, set, take, replicate, sub32,
}
use keg_scale_espdisplay.Tap.Settings.{Settings, default_settings, Sample}
use keg_scale_espdisplay.Tap.Control.{Reason}
pub mod Storage
pub mod Points
pub mod Recording
pub mod Retention
pub mod Blocks
pub mod Examples

abbrev pub slot_count : ℕ
slot_count = 6

abbrev pub slot_size : ℕ
slot_size = 16384

abbrev pub max_points : ℕ
max_points = 242

abbrev pub magic : ℕ
magic = 1347376466

abbrev pub format : ℕ
format = 1

-- The `int16_t` fields hold the low 16 bits; `reserved` is always 0.
pub record PourPoint : Type 0 where
  pub elapsed_ms : ℕ
  pub sequence : ℕ
  pub age_ms : ℕ
  pub mm : ℕ
  pub status : ℕ
  pub servo_us : ℕ
  pub valid : Bool
  pub manual_hold : Bool
  pub button : Bool

-- `firmware` is a list of characters, and `reason` is absent where its text is empty.
pub record PourSummary : Type 0 where
  pub id : ℕ
  pub duration_ms : ℕ
  pub samples : ℕ
  pub manual_hold : Bool
  pub firmware : List ℕ
  pub reason : Option Reason
  pub settings : Settings

abbrev pub no_settings : Settings
no_settings = default_settings

abbrev pub no_summary : PourSummary
no_summary = record {
  id = 0;
  duration_ms = 0;
  samples = 0;
  manual_hold = false;
  firmware = [];
  reason = none;
  settings = no_settings;
}

pub record Header : Type 0 where
  pub magic_word : ℕ
  pub format_version : ℕ
  pub count : ℕ
  pub data_crc : ℕ
  pub header_crc : ℕ
  pub summary : PourSummary

-- `Header{}`; `Settings` has default values.
abbrev pub no_header : Header
no_header = record {
  magic_word = 0;
  format_version = 0;
  count = 0;
  data_crc = 0;
  header_crc = 0;
  summary = no_summary;
}

-- The static variables.
pub record History : Type 0 where
  pub headers : List Header
  pub points : List PourPoint
  pub pending : Header
  pub recording : Bool
  pub pending_button : Bool
  pub started : ℕ
  pub last_at : ℕ
  pub next_id : ℕ
  pub saving : Bool

abbrev pub new_history : History
new_history = record {
  headers = replicate slot_count no_header;
  points = [];
  pending = no_header;
  recording = false;
  pending_button = false;
  started = 0;
  last_at = 0;
  next_id = 1;
  saving = false;
}

-- The arguments of `history_observe`, and whether there is a partition.
pub record Observation : Type 0 where
  pub s : Sample
  pub c : Settings
  pub now : ℕ
  pub servo : ℕ
  pub pouring : Bool
  pub hold : Bool
  pub button : Bool
  pub reason : Reason
  pub available : Bool
  pub version : List ℕ

unfoldable pub point_of : Observation → History → PourPoint
unfolding sub32
point_of o h = record {
  elapsed_ms = sub32 o.now h.started;
  sequence = o.s.sequence;
  age_ms = sub32 o.now o.s.at;
  mm = o.s.mm;
  status = o.s.status % 2 ^ 16;
  servo_us = o.servo % 2 ^ 16;
  valid = o.s.valid;
  manual_hold = o.hold;
  button = h.pending_button;
}

-- With all places taken the last one is written again.
unfoldable pub put_point : PourPoint → List PourPoint → List PourPoint
put_point row points =
    if ltb (length points) max_points then points ++ row ∷ [] else set points (max_points - 1) row

unfoldable pub add_point : Observation → History → History
unfolding point_of put_point
add_point o h =
    let points = put_point (point_of o h) h.points in
    record h {
      points = points;
      pending = record h.pending { count = length points };
      pending_button = false;
      last_at = o.now;
    }

-- The branch `pouring && !recording`, up to its `add_point`.
unfoldable pub begin_recording : Observation → History → History
begin_recording o h = record h {
  pending = record no_header {
    summary = record no_summary {
      settings = o.c;
      manual_hold = o.hold;
      firmware = take 31 o.version;
    };
  };
  points = [];
  started = o.now;
  last_at = o.now;
  pending_button = o.button;
  recording = true;
}

-- The branch `!pouring`; the writer task is notified where `saving` becomes true.
unfoldable pub end_recording : Observation → History → History
unfolding sub32
end_recording o h = record h {
  pending = record h.pending {
    summary = record h.pending.summary {
      duration_ms = sub32 o.now h.started;
      reason = some o.reason;
    };
  };
  recording = false;
  saving = true;
}

unfoldable pub history_observe : Observation → History → History
unfolding add_point begin_recording end_recording sub32
history_observe o h =
    if not o.available || h.saving
    then h
    else if o.pouring && not h.recording
    then add_point o (begin_recording o h)
    else if h.recording
    then (let h₁ = record h { pending_button = h.pending_button || o.button } in
        let h₂ = if not o.pouring || leb 500 (sub32 o.now h.last_at) then add_point o h₁ else h₁ in
        if not o.pouring then end_recording o h₂ else h₂)
    else h

-- `sorted[0 .. count)`: the summaries in use.
abbrev pub in_use : List Header → List PourSummary
in_use [] = []
in_use (h ∷ hs) = if h.summary.id == 0 then in_use hs else h.summary ∷ in_use hs

-- `std::sort` by descending number.
abbrev pub insert : PourSummary → List PourSummary → List PourSummary
insert s [] = s ∷ []
insert s (t ∷ ts) = if ltb s.id t.id then t ∷ insert s ts else s ∷ t ∷ ts

abbrev pub sort : List PourSummary → List PourSummary
sort [] = []
sort (s ∷ ss) = insert s (sort ss)

abbrev pub history_list : History → List PourSummary
history_list h = take 5 (sort (in_use h.headers))

abbrev pub find_id : ℕ → List PourSummary → Option PourSummary
find_id id [] = none
find_id id (s ∷ ss) = if s.id == id then some s else find_id id ss

abbrev pub history_get : ℕ → History → Option PourSummary
history_get id h = find_id id (history_list h)
