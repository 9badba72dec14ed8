-- ===== src/Opening.antt =====
-- crates/tatami_ssh_connection/src/opening.rs: the channel-opening lifecycle engine.
pub mod Types
pub mod Engine
pub mod Peer
pub mod Totals
pub mod Slots
pub mod Table
pub mod Vacate
pub mod Inv
pub mod Numbers
pub mod Keeps
pub mod Answers
pub mod Replies
pub mod Incoming
pub mod Behaviour
pub mod Loss
pub mod Trace
pub mod Late
pub mod Examples
