-- ===== src/Tap.antt =====
-- The TouchPour tap handle (touchpour/components/tap_control and touchpour/main).
pub mod Settings
pub mod Control
pub mod Target
pub mod Button
pub mod Sounds
pub mod Touch
pub mod Filter
pub mod PinLock
pub mod Device
pub mod Sense
pub mod Actions
pub mod Controller
pub mod Foam
pub mod History
