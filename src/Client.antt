-- ===== src/Client.antt =====
-- src/ClientBase.hpp and .tpp: one client, its queue, its timeouts and its callbacks.
pub mod Callbacks
pub mod State
pub mod Queue
pub mod Api
pub mod Program
pub mod Events
pub mod Invariant
pub mod Fires
pub mod History
pub mod Address
pub mod Race
pub mod Machine
pub mod ErrorText
pub mod Errors
pub mod Delivery
