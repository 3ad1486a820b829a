-- ===== src/Epaper/Wifi/Examples.antt =====
-- A connection that works, and one whose station does not start.
use keg_scale_espdisplay.Prelude.{◌≡◌, refl, true, false, none, some, [], ◌∷◌, get_elem?}
use keg_scale_espdisplay.Esp.{no_mem, invalid_state}
use keg_scale_espdisplay.Epaper.Update.{UpdateBundle}
use keg_scale_espdisplay.Epaper.Wifi.{hostname_of, Stack, connect_wifi}

abbrev home_bundle : UpdateBundle
home_bundle = record {
  size_bytes = 3;
  ssid = 97 ∷ [];
  password = [];
  hardware = [];
  version = [];
  url = [];
  sha256 = [];
}

abbrev good_stack : Stack
good_stack = record {
  netif_init = some invalid_state;
  event_loop = none;
  netif = true;
  read_mac = none;
  mac_4 = 10;
  mac_5 = 255;
  set_hostname = none;
  wifi_init = none;
  event_group = true;
  register_wifi = none;
  register_ip = none;
  set_storage = none;
  set_mode = none;
  set_config = none;
  start = none;
  set_ps = none;
  bits = record { connected = true; failed = false };
}

connect_wifi-open :
    let (w, e) = connect_wifi good_stack home_bundle in
    (e ≡ none)
    × (w.configured ≡ some (record { ssid = 97 ∷ []; password = []; wpa2 = false }))
    × (w.context.hostname ≡ hostname_of 10 255)
unfolding connect_wifi
connect_wifi-open = (refl, refl, refl)

connect_wifi-no_start :
    (connect_wifi (record good_stack { start = some no_mem }) home_bundle).1 ≡ some no_mem
unfolding connect_wifi
connect_wifi-no_start = refl

-- "0AFF"
hostname_of-end : get_elem? (hostname_of 10 255) 17 ≡ some 65
unfolding hostname_of
hostname_of-end = refl
