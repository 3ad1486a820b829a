-- ===== src/Epaper/Wifi/Laws.antt =====
-- display_ota.c: the reconnections of the Wi-Fi, and what a connection leaves.
use keg_scale_espdisplay.Esp.{Err, ◌and_then◌, and_then-ran}
use keg_scale_espdisplay.Epaper.Update.{UpdateBundle}
use keg_scale_espdisplay.Prelude.{
  ℕ, ◌+◌, ◌≤◌, ◌≡◌, refl, Bool, true, false, Option, none, List, [], ◌∷◌, arith, bit, All,
}
use keg_scale_espdisplay.Epaper.Wifi.{
  WifiContext, WifiEvent, sta_start, sta_disconnected, got_ip, other_event, wifi_event, Stack, Wifi,
  no_wifi, create_interface, create_events, start_station, await_ip, connect_wifi, stop_wifi,
  ImageState, pending_verify, confirm_running_image,
}

-- The events in their order: the context, and how often the handler has called `esp_wifi_connect`
-- after a disconnection.
abbrev pub events : WifiContext → List WifiEvent → WifiContext × ℕ
events c [] = (c, 0)
events c (e ∷ es) =
    let (d, connects) = wifi_event c e in let (f, rest) = events d es in (f, bit connects + rest)

abbrev IsDrop : WifiEvent → Type 0
IsDrop (sta_start answer) = ⊥
IsDrop sta_disconnected = Unit
IsDrop got_ip = ⊥
IsDrop other_event = Unit

disconnected-le :
    (c : WifiContext)
    → c.retries ≤ 10
    → let (d, connects) = wifi_event c sta_disconnected in
      (d.retries ≡ c.retries + bit connects) × (d.retries ≤ 10)
unfolding wifi_event
disconnected-le c l = ground (arith, l)

other-same : (c : WifiContext) → wifi_event c other_event ≡ (c, false)
unfolding wifi_event
other-same c = refl

-- Without an address in between, disconnections are answered by at most the retries that are left.
events-le :
    (c : WifiContext) (es : List WifiEvent)
    → All IsDrop es
    → c.retries ≤ 10
    → ((events c es).0.retries ≡ c.retries + (events c es).1) × ((events c es).0.retries ≤ 10)
events-le c [] h l = (omega arith, l)
events-le c (sta_start answer ∷ es) h l = absurd h.0
events-le c (got_ip ∷ es) h l = absurd h.0
events-le c (other_event ∷ es) h l =
    let ih = events-le c es h.1 l in rw (other-same c) (omega (arith, ih), ih.1)
events-le c (sta_disconnected ∷ es) h l =
    let step = disconnected-le c l in
    let ih = events-le (wifi_event c sta_disconnected).0 es h.1 step.1 in
    (omega (arith, ih, step), ih.1)

-- With no address in between, the handler reconnects at most ten times, however often the Wi-Fi
-- goes away.
reconnects-le :
    (c : WifiContext) (es : List WifiEvent) → All IsDrop es → c.retries ≤ 10 → (events c es).1 ≤ 10
reconnects-le c es h l = omega (arith, events-le c es h l)

-- Whatever the stack answers, what `connect_wifi` created is released by `stop_wifi`.
connect_wifi-stop_wifi :
    (s : Stack) (b : UpdateBundle)
    → let w = stop_wifi (connect_wifi s b).0 in
      (w.netif ≡ false)
      × (w.wifi_handler ≡ false)
      × (w.ip_handler ≡ false)
      × (w.context.events ≡ none)
unfolding stop_wifi
connect_wifi-stop_wifi s b = ground arith

await_ip-connected : (s : Stack) (w v : Wifi) → await_ip s w ≡ (v, none) → s.bits.connected ≡ true
unfolding await_ip
await_ip-connected s w v h = ground (arith, h)

-- A connection that reports ESP_OK has an address.
connect_wifi-connected :
    (s : Stack) (b : UpdateBundle) (w : Wifi)
    → connect_wifi s b ≡ (w, none)
    → s.bits.connected ≡ true
unfolding connect_wifi
connect_wifi-connected s b w h =
    let started =
      create_interface s no_wifi
      and_then (λ w. create_events s w)
      and_then (λ w. start_station s b w) in
    let (v, e, awaited) = and_then-ran started (λ w. await_ip s w) w h in
    await_ip-connected s v w awaited

-- The confirmation is asked only of an image that waits for it, and its answer is the result.
confirm-pending :
    (running : Bool) (answer : Option Err) (state : ImageState) (confirmed : Option Err)
    → (confirm_running_image running answer state confirmed).1 ≡ true
    → (running ≡ true) × (answer ≡ none) × (state ≡ pending_verify) × (confirmed ≡ none)
unfolding confirm_running_image
confirm-pending running answer state confirmed h = ground (arith, h)
