-- ===== src/Node.antt =====
-- The component of the node itself (components/meshmesh/meshmesh.cpp).
pub mod State
pub mod Frames
pub mod Life
pub mod Cases
pub mod Replies
pub mod Passes
pub mod Saved
pub mod Valid
pub mod Settings
pub mod Reboot
mod Tests
