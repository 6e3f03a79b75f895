-- ===== src/Ota.antt =====
-- The OTA component over mesh datagrams (components/meshmesh/ota).
pub mod State
pub mod Rx
pub mod Auth
pub mod Handshake
pub mod Data
pub mod Loop
pub mod Queue
pub mod Frames
pub mod Invariant
pub mod Keep
pub mod Waiting
pub mod HandshakeSafe
pub mod AuthSafe
pub mod DataSafe
pub mod Safety
pub mod Chunks
pub mod Firmware
pub mod Deadline
pub mod Transfer
pub mod Response
pub mod Access
pub mod Upload
mod Tests
