-- ===== src/Audio.antt =====
-- The audio buffers (components/audio/audio_transfer_buffer.cpp).
pub mod Source
pub mod Stream
pub mod Reading
pub mod Frames
pub mod Filling
pub mod Refill
pub mod Runs
pub mod Transfer
pub mod Moving
pub mod Resizing
pub mod Const
mod TransferTests
mod Tests
