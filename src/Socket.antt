-- ===== src/Socket.antt =====
-- Mesh sockets behind the interface of system sockets (components/socket/meshmesh_socket_impl.cpp).
pub mod State
pub mod Calls
pub mod Owners
pub mod Storing
pub mod Closing
pub mod Joining
pub mod Owned
pub mod Steps
pub mod Refines
pub mod Vectors
pub mod Writing
pub mod Peers
mod Tests
