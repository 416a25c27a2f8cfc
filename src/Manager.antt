-- ===== src/Manager.antt =====
-- src/SocketConnection.hpp and .tpp: SocketConnectionManager. A client or a server is known by a
-- number, its address; it exists as long as it is registered, since its constructor registers it
-- and its destructor unregisters it.
pub mod Registry
pub mod Managed
pub mod Sets
pub mod Pass
pub mod Keeps
pub mod Laws
pub mod Present
pub mod Alive
pub mod Concepts
pub mod Told
pub mod Lifecycle
pub mod Phases
pub mod Numbered
pub mod System
pub mod Worker
pub mod Watchdog
pub mod Resolving
pub mod Deleting
pub mod Accepting
