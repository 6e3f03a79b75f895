-- ===== src/Ota/Upload.antt =====
-- A whole upload of firmware to components/meshmesh/ota/ota_meshmesh.cpp, from the first byte to the
-- reboot.
pub mod Setting
pub mod Flash
pub mod Pass
pub mod Schedule
pub mod Finish
pub mod Whole
pub mod Header
pub mod Update
mod Tests
