-- ===== src/Epaper/Wifi.antt =====
-- components/display_ota/display_ota.c: the Wi-Fi of an update, and the confirmation of the image
-- that runs. What the network stack answers is an argument.
use keg_scale_espdisplay.Prelude.{
  ℕ, ◌+◌, ◌/◌, ◌%◌, Bool, true, false, not, ◌&&◌, Option, none, some, List, [], ◌∷◌, ◌++◌, ltb,
  if◌then◌else◌, length, take,
}
use keg_scale_espdisplay.Esp.{
  Err, fail, no_mem, invalid_arg, invalid_state, invalid_size, not_found, timeout, invalid_response,
  invalid_crc, not_supported, nvs_not_found, invalid_version, other, is_ok, ◌then_if_ok◌,
  ◌and_then◌,
}
use keg_scale_espdisplay.Epaper.Update.{UpdateBundle}
pub mod Laws
pub mod Examples

abbrev pub wifi_max_retries : ℕ
wifi_max_retries = 10

-- The two bits of the event group.
pub record Bits : Type 0 where
  pub connected : Bool
  pub failed : Bool

-- `wifi_context_t`; `events` is absent where it is NULL.
pub record WifiContext : Type 0 where
  pub events : Option Bits
  pub retries : ℕ
  pub hostname : List ℕ

-- The events that the handler is registered for; the start carries the answer of
-- `esp_netif_set_hostname`.
pub data WifiEvent : Type 0 where
  sta_start : Option Err → WifiEvent
  sta_disconnected : WifiEvent
  got_ip : WifiEvent
  other_event : WifiEvent

unfoldable pub set_failed : Option Bits → Option Bits
set_failed none = none
set_failed (some b) = some (record b { failed = true })

unfoldable pub set_connected : Bool → Option Bits → Option Bits
set_connected connected none = none
set_connected connected (some b) = some (record b { connected = connected })

-- The context after an event, and whether the handler calls `esp_wifi_connect`.
unfoldable pub wifi_event : WifiContext → WifiEvent → WifiContext × Bool
unfolding set_failed set_connected
wifi_event c (sta_start none) = (c, true)
wifi_event c (sta_start (some e)) = (record c { events = set_failed c.events }, false)
wifi_event c sta_disconnected =
    let events = set_connected false c.events in
    if ltb c.retries wifi_max_retries
    then (record c { events = events; retries = c.retries + 1 }, true)
    else (record c { events = set_failed events }, false)
wifi_event c got_ip = (record c { events = set_connected true c.events; retries = 0 }, false)
wifi_event c other_event = (c, false)

-- A digit of `%X`.
unfoldable pub upper_digit : ℕ → ℕ
upper_digit d = if ltb d 10 then 48 + d else 55 + d

-- "KegScaleDisplay-" and the last two bytes of the MAC address.
unfoldable pub hostname_of : ℕ → ℕ → List ℕ
unfolding upper_digit
hostname_of a b =
    (75 ∷ 101 ∷ 103 ∷ 83 ∷ 99 ∷ 97 ∷ 108 ∷ 101 ∷ 68 ∷ 105 ∷ 115 ∷ 112 ∷ 108 ∷ 97 ∷ 121 ∷ 45 ∷ [])
    ++ upper_digit (a / 16)
      ∷ upper_digit (a % 16)
      ∷ upper_digit (b / 16)
      ∷ upper_digit (b % 16)
      ∷ []

-- The station's configuration: `ssid` and `password` as the driver's arrays hold them.
pub record StaConfig : Type 0 where
  pub ssid : List ℕ
  pub password : List ℕ
  pub wpa2 : Bool

unfoldable pub sta_config : UpdateBundle → StaConfig
sta_config b =
    let password = take 64 b.password in
    record { ssid = take 32 b.ssid; password = password; wpa2 = ltb 0 (length password) }

-- What the stack answers to `connect_wifi`.
pub record Stack : Type 0 where
  pub netif_init : Option Err
  pub event_loop : Option Err
  pub netif : Bool
  pub read_mac : Option Err
  pub mac_4 : ℕ
  pub mac_5 : ℕ
  pub set_hostname : Option Err
  pub wifi_init : Option Err
  pub event_group : Bool
  pub register_wifi : Option Err
  pub register_ip : Option Err
  pub set_storage : Option Err
  pub set_mode : Option Err
  pub set_config : Option Err
  pub start : Option Err
  pub set_ps : Option Err
  -- The bits when the wait ends.
  pub bits : Bits

-- The variables of `display_ota_install`: the interface and the handlers are absent where they are
-- NULL, `configured` is what `esp_wifi_set_config` was given.
pub record Wifi : Type 0 where
  pub netif : Bool
  pub context : WifiContext
  pub wifi_handler : Bool
  pub ip_handler : Bool
  pub configured : Option StaConfig

abbrev pub no_context : WifiContext
no_context = record { events = none; retries = 0; hostname = [] }

abbrev pub no_wifi : Wifi
no_wifi = record {
  netif = false;
  context = no_context;
  wifi_handler = false;
  ip_handler = false;
  configured = none;
}

-- An error that is not ESP_ERR_INVALID_STATE, which says that the call was made before.
abbrev unless_done : Option Err → Option Err
unless_done none = none
unless_done (some invalid_state) = none
unless_done (some fail) = some fail
unless_done (some no_mem) = some no_mem
unless_done (some invalid_arg) = some invalid_arg
unless_done (some invalid_size) = some invalid_size
unless_done (some not_found) = some not_found
unless_done (some timeout) = some timeout
unless_done (some invalid_response) = some invalid_response
unless_done (some invalid_crc) = some invalid_crc
unless_done (some not_supported) = some not_supported
unless_done (some nvs_not_found) = some nvs_not_found
unless_done (some invalid_version) = some invalid_version
unless_done (some (other n)) = some (other n)

-- The interface and its hostname.
unfoldable pub create_interface : Stack → Wifi → Wifi × Option Err
unfolding hostname_of
create_interface s w =
    if not (is_ok (unless_done s.netif_init))
    then (w, s.netif_init)
    else if not (is_ok (unless_done s.event_loop))
    then (w, s.event_loop)
    else if not s.netif
    then (w, some no_mem)
    else let v : Wifi = record w { netif = true } in
      let c = w.context in
      let hostname = hostname_of s.mac_4 s.mac_5 in
      if not (is_ok s.read_mac)
      then (v, s.read_mac)
      else if not (is_ok s.set_hostname)
      then (v, s.set_hostname)
      else (record v { context = record c { hostname = hostname } }, s.wifi_init)

-- The event group and the two handlers. A failed registration does not end the function yet.
unfoldable pub create_events : Stack → Wifi → Wifi × Option Err
create_events s w =
    let c = w.context in
    if not s.event_group
    then (w, some no_mem)
    else let group : WifiContext = record c {
      events = some (record { connected = false; failed = false });
    } in
      (
        record w {
          context = group;
          wifi_handler = is_ok s.register_wifi;
          ip_handler = is_ok s.register_wifi && is_ok s.register_ip;
        },
        s.register_wifi then_if_ok s.register_ip,
      )

-- The configuration and the start of the station.
unfoldable pub start_station : Stack → UpdateBundle → Wifi → Wifi × Option Err
unfolding sta_config
start_station s b w =
    let before = s.set_storage then_if_ok s.set_mode in
    (
      if is_ok before then record w { configured = some (sta_config b) } else w,
      before then_if_ok s.set_config then_if_ok s.start then_if_ok s.set_ps,
    )

-- The end of the wait, with the context as the events have left it.
unfoldable pub await_ip : Stack → Wifi → Wifi × Option Err
await_ip s w =
    let c = w.context in
    (
      record w { context = record c { events = some s.bits } },
      if s.bits.connected then none else if s.bits.failed then some fail else some timeout,
    )

unfoldable pub connect_wifi : Stack → UpdateBundle → Wifi × Option Err
unfolding create_interface create_events start_station await_ip
connect_wifi s b =
    create_interface s no_wifi
    and_then (λ w. create_events s w)
    and_then (λ w. start_station s b w)
    and_then (λ w. await_ip s w)

-- `stop_wifi`, with the variables that it is given: what was created is released.
unfoldable pub stop_wifi : Wifi → Wifi
stop_wifi w =
    let c = w.context in
    record w {
      netif = if w.netif then false else w.netif;
      context = record c { events = none };
      wifi_handler = if w.wifi_handler then false else w.wifi_handler;
      ip_handler = if w.ip_handler then false else w.ip_handler;
    }

-- The states of an image that `display_ota_confirm_running_image` tells apart.
pub data ImageState : Type 0 where
  pending_verify : ImageState
  other_state : ImageState

abbrev pub state_answer : Option Err → Bool
state_answer none = false
state_answer (some not_found) = true
state_answer (some not_supported) = true
state_answer (some fail) = false
state_answer (some no_mem) = false
state_answer (some invalid_arg) = false
state_answer (some invalid_state) = false
state_answer (some invalid_size) = false
state_answer (some timeout) = false
state_answer (some invalid_response) = false
state_answer (some invalid_crc) = false
state_answer (some nvs_not_found) = false
state_answer (some invalid_version) = false
state_answer (some (other n)) = false

abbrev marks : ImageState → Bool
marks pending_verify = true
marks other_state = false

-- The running partition, the answer and the state of `esp_ota_get_state_partition`, and the answer
-- of the confirmation. The result and whether the image was confirmed.
unfoldable pub confirm_running_image :
    Bool → Option Err → ImageState → Option Err → Option Err × Bool
confirm_running_image running answer state confirmed =
    if not running
    then (some not_found, false)
    else if state_answer answer
    then (none, false)
    else if is_ok answer && marks state
    then (confirmed, is_ok confirmed)
    else (answer, false)
