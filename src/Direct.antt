-- ===== src/Direct.antt =====
-- Remote access to a node's entities (components/meshmesh_direct).
pub mod State
pub mod Find
pub mod Sends
pub mod Handlers
pub mod Remote
pub mod Lookup
pub mod Forwarding
pub mod Replies
pub mod Discovery
pub mod EndToEnd
mod Tests
