-- ===== src/Epaper/Pairing.antt =====
-- components/pairing/pairing.c: the pairing with a scale and the count of power cycles in NVS. What
-- every call of NVS answers is an argument; a write that answers ESP_OK is seen by the calls after
-- it. A value is in flash from the commit on.
use keg_scale_espdisplay.Prelude.{
  ℕ, ◌+◌, Bool, true, false, not, ◌&&◌, ◌||◌, Option, none, some, List, [], ltb, leb, ◌==◌,
  if◌then◌else◌, length, replicate, is_empty,
}
use keg_scale_espdisplay.Esp.{
  Err, fail, no_mem, invalid_arg, invalid_state, invalid_size, not_found, timeout, invalid_response,
  invalid_crc, not_supported, nvs_not_found, invalid_version, other, is_ok, ◌then_if_ok◌,
  ◌and_then◌,
}
pub mod Stored
pub mod Examples

pub record Peer : Type 0 where
  pub scale_id : List ℕ
  pub address : List ℕ
  pub address_type : ℕ

pub record PairingConfig : Type 0 where
  pub paired : Bool
  pub peer : Peer

abbrev pub no_peer : Peer
no_peer = record { scale_id = []; address = replicate 6 0; address_type = 0 }

abbrev pub unpaired : PairingConfig
unpaired = record { paired = false; peer = no_peer }

abbrev pub recovery_power_cycles : ℕ
recovery_power_cycles = 3

-- The keys of the namespace, each absent until it is written.
pub record Store : Type 0 where
  pub valid : Option ℕ
  pub scale_id : Option (List ℕ)
  pub address : Option (List ℕ)
  pub address_type : Option ℕ
  pub passkey : Option ℕ
  pub power_cycles : Option ℕ

abbrev pub empty_store : Store
empty_store = record {
  valid = none;
  scale_id = none;
  address = none;
  address_type = none;
  passkey = none;
  power_cycles = none;
}

-- What NVS answers, beyond a missing key: an error where the flash or the memory fails.
pub record Nvs : Type 0 where
  pub opened : Option Err
  pub get_valid : Option Err
  pub get_scale_id : Option Err
  pub get_address : Option Err
  pub get_address_type : Option Err
  pub get_cycles : Option Err
  pub set_scale_id : Option Err
  pub set_address : Option Err
  pub set_address_type : Option Err
  pub set_valid : Option Err
  pub erase_passkey : Option Err
  pub erase_all : Option Err
  pub set_cycles : Option Err
  pub commit : Option Err

-- A reading: the error of the call, or the value, or ESP_ERR_NVS_NOT_FOUND.
abbrev pub get {ℓ} : {A : Type ℓ} → Option Err → A → Option A → A × Option Err
get (some e) default stored = (default, some e)
get none default none = (default, some nvs_not_found)
get none default (some a) = (a, none)

abbrev is_not_found : Option Err → Bool
is_not_found none = false
is_not_found (some nvs_not_found) = true
is_not_found (some fail) = false
is_not_found (some no_mem) = false
is_not_found (some invalid_arg) = false
is_not_found (some invalid_state) = false
is_not_found (some invalid_size) = false
is_not_found (some not_found) = false
is_not_found (some timeout) = false
is_not_found (some invalid_response) = false
is_not_found (some invalid_crc) = false
is_not_found (some not_supported) = false
is_not_found (some invalid_version) = false
is_not_found (some (other n)) = false

-- The reading of the peer, where `valid` is 1.
unfoldable pub load_peer : Nvs → Store → PairingConfig × Option Err
load_peer n s =
    let (scale_id, e₁) = get n.get_scale_id [] s.scale_id in
    let (address, e₂) = get n.get_address [] s.address in
    let (address_type, e₃) = get n.get_address_type 0 s.address_type in
    let e =
      e₁
      then_if_ok e₂
      then_if_ok (if length address == 6 then none else some invalid_size)
      then_if_ok e₃ in
    if is_ok e
    then (
      record {
        paired = true;
        peer = record { scale_id = scale_id; address = address; address_type = address_type };
      },
      none,
    )
    else (unpaired, e)

unfoldable pub pairing_load : Nvs → Store → PairingConfig × Option Err
unfolding load_peer
pairing_load n s =
    if is_not_found n.opened
    then (unpaired, none)
    else if not (is_ok n.opened)
    then (unpaired, n.opened)
    else let (valid, e) = get n.get_valid 0 s.valid in
      if is_not_found e || not (valid == 1) then (unpaired, none) else load_peer n s

-- The writes before the commit, in their order, to the first error.
unfoldable pub write_peer : Nvs → Peer → Store → Store × Option Err
write_peer n p s =
    (s, none)
    and_then (λ s.
        if is_ok n.set_scale_id
        then (record s { scale_id = some p.scale_id }, none)
        else (s, n.set_scale_id))
    and_then (λ s.
        if is_ok n.set_address
        then (record s { address = some p.address }, none)
        else (s, n.set_address))
    and_then (λ s.
        if is_ok n.set_address_type
        then (record s { address_type = some p.address_type }, none)
        else (s, n.set_address_type))
    and_then (λ s.
        if is_ok n.set_valid then (record s { valid = some 1 }, none) else (s, n.set_valid))
    and_then (λ s.
        if is_ok n.erase_passkey
        then (record s { passkey = none }, none)
        else (s, if is_not_found n.erase_passkey then none else n.erase_passkey))

-- A missing passkey is no error of its erasure, so `erase_passkey` may be ESP_ERR_NVS_NOT_FOUND.
unfoldable pub pairing_save : Nvs → Peer → Store → Store × Option Err
unfolding write_peer
pairing_save n p s =
    if is_empty p.scale_id
    then (s, some invalid_arg)
    else if not (is_ok n.opened)
    then (s, n.opened)
    else write_peer n p s and_then (λ s. (s, n.commit))

unfoldable pub pairing_clear : Nvs → Store → Store × Option Err
pairing_clear n s =
    if is_not_found n.opened
    then (s, none)
    else if not (is_ok n.opened)
    then (s, n.opened)
    else if is_ok n.erase_all
    then (empty_store, n.commit)
    else (s, n.erase_all)

-- The store, the count, whether the recovery is requested, and the result.
unfoldable pub pairing_note_power_cycle : Nvs → Store → Store × (ℕ × Bool) × Option Err
pairing_note_power_cycle n s =
    if not (is_ok n.opened)
    then (s, (0, false), n.opened)
    else let (stored, e) = get n.get_cycles 0 s.power_cycles in
      if not (is_ok e) && not (is_not_found e)
      then (s, (0, false), e)
      else let count = if ltb stored 255 then stored + 1 else stored in
        let recovery = leb recovery_power_cycles count in
        let kept = if recovery then 0 else count in
        if is_ok n.set_cycles
        then (record s { power_cycles = some kept }, (count, recovery), n.commit)
        else (s, (count, recovery), n.set_cycles)

unfoldable pub pairing_reset_power_cycle_count : Nvs → Store → Store × Option Err
pairing_reset_power_cycle_count n s =
    if is_not_found n.opened
    then (s, none)
    else if not (is_ok n.opened)
    then (s, n.opened)
    else if is_ok n.set_cycles
    then (record s { power_cycles = some 0 }, n.commit)
    else (s, n.set_cycles)
