-- ===== src/Tcp.antt =====
-- crates/tatami_ssh_tcp: the SSH transport over a byte stream.
pub mod Packet
pub mod Negotiate
pub mod Proposal
pub mod Examples
pub mod Ident
