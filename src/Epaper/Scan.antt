-- ===== src/Epaper/Scan.antt =====
-- components/ble_client/ble_client.c: the candidates of a scan for scales. An advertisement is what
-- NimBLE has parsed of it; one that it cannot parse is no step.
use keg_scale_espdisplay.Prelude.{
  ℕ, bit_and, Bool, false, not, ◌&&◌, ◌||◌, Option, none, some, List, [], ◌∷◌, map, ltb, leb, ◌==◌,
  if◌then◌else◌, length, take, same_text, ℤ, negsuc, to_lower, has_prefix,
}
pub mod Candidates
pub mod Examples

abbrev pub scale_id_max : ℕ
scale_id_max = 20

pub record Address : Type 0 where
  pub kind : ℕ
  pub bytes : List ℕ

-- The fields of `ble_client_peer_t` that a scan sets.
pub record Candidate : Type 0 where
  pub address : Address
  pub scale_id : List ℕ
  pub rssi : ℤ
  pub service_seen : Bool
  pub pairing_mode : Bool
  pub setup_url_available : Bool
  pub ip : List ℕ

-- A name and manufacturer's data are absent where the pointers are NULL; `uuids` says of each
-- service whether it is the scale's.
pub record Advertisement : Type 0 where
  pub address : Address
  pub rssi : ℤ
  pub uuids : List Bool
  pub name : Option (List ℕ)
  pub mfg_data : Option (List ℕ)

abbrev pub same_address : Address → Address → Bool
same_address a b = a.kind == b.kind && same_text a.bytes b.bytes

abbrev pub service_matches : List Bool → Bool
service_matches [] = false
service_matches (u ∷ uuids) = let rest = service_matches uuids in u || rest

-- "kegscale-"
abbrev prefix : List ℕ
prefix = 107 ∷ 101 ∷ 103 ∷ 115 ∷ 99 ∷ 97 ∷ 108 ∷ 101 ∷ 45 ∷ []

abbrev pub is_scale_name : Option (List ℕ) → Bool
is_scale_name none = false
is_scale_name (some name) = leb 9 (length name) && has_prefix prefix (map to_lower name)

abbrev pub new_candidate : Address → Candidate
new_candidate a = record {
  address = a;
  scale_id = [];
  rssi = negsuc 126;
  service_seen = false;
  pairing_mode = false;
  setup_url_available = false;
  ip = [];
}

-- `get_scan_candidate` and the change of the candidate that it gives; nothing changes where there
-- is none and no room, which `room` says.
abbrev pub with_candidate :
    Bool → Address → (Candidate → Candidate) → List Candidate → List Candidate
with_candidate room a change [] = if room then change (new_candidate a) ∷ [] else []
with_candidate room a change (c ∷ items) =
    let rest = with_candidate room a change items in
    if same_address c.address a then change c ∷ items else c ∷ rest

-- The address of the page for the setup, from the bytes after the flags.
abbrev pub note_ip : List ℕ → Candidate → Candidate
note_ip (a ∷ b ∷ c ∷ d ∷ bytes) k =
    let there = not (a == 0) in
    record k { setup_url_available = there; ip = if there then a ∷ b ∷ c ∷ d ∷ [] else k.ip }
note_ip _ k = k

unfoldable pub note_flags : ℕ → List ℕ → Candidate → Candidate
note_flags flags bytes k =
    let noted = record k { pairing_mode = not (bit_and flags 1 == 0) } in
    if leb 4 (length bytes) && not (bit_and flags 2 == 0) then note_ip bytes noted else noted

abbrev pub note_mfg_data : Option (List ℕ) → Candidate → Candidate
note_mfg_data (some (m ∷ n ∷ v ∷ flags ∷ bytes)) k =
    if m == 75 && n == 83 && v == 1 then note_flags flags bytes k else k
note_mfg_data _ k = k

abbrev pub note_name : Bool → Option (List ℕ) → Candidate → Candidate
note_name scale_name none k = k
note_name scale_name (some name) k =
    if scale_name then record k { scale_id = take scale_id_max name } else k

-- What an advertisement changes of its candidate.
unfoldable pub note : Advertisement → Candidate → Candidate
unfolding note_flags to_lower
note e k =
    let seen : Candidate = record k {
      rssi = e.rssi;
      service_seen = service_matches e.uuids || k.service_seen;
    } in
    note_name (is_scale_name e.name) e.name (note_mfg_data e.mfg_data seen)

-- BLE_GAP_EVENT_DISC, with the capacity of the caller's array.
unfoldable pub on_advertisement : ℕ → Advertisement → List Candidate → List Candidate
unfolding note
on_advertisement capacity e items =
    if not (service_matches e.uuids) && not (is_scale_name e.name)
    then items
    else with_candidate (ltb (length items) capacity) e.address (note e) items
