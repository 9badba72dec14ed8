-- ===== src/Wire.antt =====
-- crates/tatami_ssh_wire: the primitive codecs and the message codecs built on them.
pub mod Error
pub mod Bytes
pub mod Mpint
pub mod NameList
pub mod Reader
pub mod Writer
pub mod Msg
pub mod Message
pub mod Transport
pub mod Kex
pub mod Channel
pub mod RoundTrips
pub mod Examples
pub mod Samples
pub mod DisconnectReason
pub mod OpenFailureReason
pub mod Named
pub mod KexInit
pub mod Algorithms
pub mod ExtInfo
pub mod Ident
pub mod Identities
pub mod Extensions
