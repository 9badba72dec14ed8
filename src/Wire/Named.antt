-- ===== src/Wire/Named.antt =====
-- Which codes have a symbolic name: transport.rs and channel.rs of crates/tatami_ssh_wire/src.
use tatami_ssh.Prelude.{ℕ, ◌≢◌, ◌≤◌, ◌↔◌, arith, none}
use tatami_ssh.Wire.DisconnectReason
use tatami_ssh.Wire.OpenFailureReason

-- A disconnect reason has a symbolic name exactly when it is one of the registered codes 1 to 15.
pub disconnect_named : (code : ℕ) → (DisconnectReason.name code ≢ none) ↔ ((1 ≤ code) × (code ≤ 15))
unfolding DisconnectReason.name
disconnect_named code = ground arith

-- A reason for refusing a channel has a symbolic name exactly when it is one of the codes 1 to 4.
pub open_failure_named :
    (code : ℕ) → (OpenFailureReason.name code ≢ none) ↔ ((1 ≤ code) × (code ≤ 4))
unfolding OpenFailureReason.name
open_failure_named code = ground arith
