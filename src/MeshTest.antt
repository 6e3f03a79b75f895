-- ===== src/MeshTest.antt =====
-- The firmware that tests the mesh (components/meshmesh_test).
pub mod State
pub mod Steps
pub mod Safe
pub mod Forward
pub mod Runs
pub mod Session
mod Tests
