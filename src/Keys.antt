-- ===== src/Keys.antt =====
-- crates/tatami_ssh_keys: host keys.
pub mod Algorithm
pub mod Examples
