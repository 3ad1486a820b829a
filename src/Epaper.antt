-- ===== src/Epaper.antt =====
-- The battery-powered e-paper display (main and components).
pub mod Update
pub mod Download
pub mod TouchWake
pub mod Pairing
pub mod Wifi
pub mod Scan
