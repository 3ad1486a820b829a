-- ===== src/Touchscreen.antt =====
-- The wall touchscreen (touchscreen/main).
pub mod PairingGuard
pub mod Transport
pub mod Link
pub mod Session
pub mod UiText
pub mod Hex
pub mod Ota
pub mod Agreement
pub mod Discovery
