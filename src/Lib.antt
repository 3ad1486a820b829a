-- ===== src/Lib.antt =====
-- KegScaleESPDisplay: the firmware of the displays around a keg scale. This library models the parts
-- that move something or guard something.
--
-- The TouchPour tap handle (touchpour/): a servo opens and closes a tap, a distance sensor watches the
-- fill. `sensor_task` filters readings, `controller_task` (app.cpp) runs the tap in rounds. A round
-- reads the sample, the settings, the button and the queue of actions, lets Control decide whether the
-- tap stays open, and moves the servo. A PIN locks it, and two recorders observe each round.
--
-- - Tap.Settings, Tap.Control: control.h (`Settings`, `Sample`, `Control::update`, `start`, `stop`).
-- - Tap.Target: pour_target.h and idle_status.h. Tap.Button: button_gesture.h.
-- - Tap.Sounds: audio_events.h. Tap.Touch: main/emergency_touch.h. Tap.Filter: distance_filter.h.
-- - Tap.PinLock: pin_lock.cpp. Tap.Foam: foam_capture.h and foam_capture.cpp.
-- - Tap.History: pour_history.cpp; Tap.History.Storage has its flash partition and checksum.
-- - Tap.Device, Tap.Sense, Tap.Actions, Tap.Controller: app.cpp, the state of `controller_task`, the
--   start of a round, the actions, and the round as a whole. The files are those of
--   touchpour/components/tap_control unless a path is given.
--
-- The wall touchscreen (touchscreen/main): it talks to two scales over WebSockets.
--
-- - Touchscreen.PairingGuard: pairing_guard.cpp, the task that clears a pairing on the scale.
-- - Touchscreen.Transport: connection_transport.cpp, from WebSocket events to queued frames.
-- - Touchscreen.Link: touchscreen/components/controller_link/controller_link.c, the sealed messages.
-- - Touchscreen.Agreement: the key pair and the key agreement of the same file.
-- - Touchscreen.Session: connection_session.cpp, which sends them over a connection; Handshake has the
--   hello message and the handshake.
-- - Touchscreen.UiText: ui_text.cpp, texts in characters that the fonts have.
-- - Touchscreen.Discovery: setup_discovery.cpp, the lists that the setup offers.
-- - Touchscreen.Hex: the hexadecimal texts of controller_link.c.
-- - Touchscreen.Ota: touchscreen_ota.cpp, from the manifest (Version, Offers) to the image (Image,
--   Matching, Gates).
--
-- The e-paper display (main and components, in C): it sleeps, wakes by touch or timer, shows what the
-- scale tells it over Bluetooth, and installs updates that the scale has approved.
--
-- - Epaper.Update: main/ota_authorization_policy.h and main/power_policy.h, with the offer and the
--   bundle of components/ble_client/include/ble_client.h.
-- - Epaper.Download: components/display_ota/display_ota.c, an attempt (Staging), the retries and
--   `display_ota_install` (Retries), and the install of an authorised offer (Authorized).
-- - Epaper.Wifi: display_ota.c, `wifi_event`, `connect_wifi`, `stop_wifi` and the confirmation of the
--   running image. Epaper.Download takes the result of `connect_wifi`.
-- - Epaper.TouchWake: components/touch_wake/touch_wake.c, the context and the arming; Sampling has the
--   readings, the mean and the wait, Calibrate the stages of the calibration, Contract what its caller
--   may rely on. A closing call of the driver may fail; the code does not look at its result.
-- - Epaper.Scan: components/ble_client/ble_client.c, the candidates of a scan.
-- - Epaper.Pairing: components/pairing/pairing.c, over the keys of its NVS namespace.
-- - Esp: `esp_err_t`, where `none` is ESP_OK, and the sequences that stop at the first error.
--
-- Numbers are the native naturals. The `int` settings are natural because `valid_settings` gives each
-- one a positive lower bound; `uint32_t` times are subtracted modulo 2^32 (sub32, add32); a float of
-- the distance filter is a count of 2^-19 mm, and its rounded average is a parameter `ema`. Differences
-- that can be negative are of type ℤ. Pointers to constant reason texts are the type Reason.
--
-- The clock, the PWM driver, the NVS, the random numbers, SHA-256 and PBKDF2, the flash partition, the
-- HTTP client, cJSON, the touch driver, the PSA functions and the WebSocket client are code outside
-- the sources: a round takes what they return as an argument. An atomic flag is read once a round.
-- The check of a PIN takes one time for its two reads of the clock. A
-- function that holds a mutex from its first statement to its last is one step. A queue of FreeRTOS is
-- a list with the capacity of its creation.
--
-- Loops are structural recursion on lists and numbers; the loop over flash blocks has as fuel the
-- number of bytes, which is enough since each block has at least one, and the loop of `sanitize` has
-- the size of its destination, since each round adds a byte; `wait_for_state` of the touch wake has a
-- round for each tick of its time and one more, which is enough while the clock goes on (theorems
-- below). The other loops that read (HTTP, samples) go over the list of what is read.
--
-- Not modelled: drawing, audio, web pages and HTTP handlers, the Wi-Fi setup, the drivers, the
-- Bluetooth connections, the application and the screens of the e-paper display, and the remaining
-- files of the touchscreen.
pub mod Epaper
pub mod Esp
pub mod Prelude
pub mod Tap
pub mod Touchscreen
