-- ===== src/Sender.antt =====
-- src/sender/mod.rs: the parts of the sender.
pub mod Filter
pub mod Slots
pub mod Dispatch
pub mod Upsert
pub mod Invariant
pub mod Connection
pub mod Tasks
