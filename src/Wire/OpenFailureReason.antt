-- ===== src/Wire/OpenFailureReason.antt =====
-- crates/tatami_ssh_wire/src/channel.rs: the module `open_failure_reason`.
use Prim.Native.String.{String}
use tatami_ssh.Wire.Channel.{resource_shortage}
use tatami_ssh.Prelude.{ℕ, Option, none, some, ◌==◌, if◌then◌else◌}

abbrev pub administratively_prohibited : ℕ
administratively_prohibited = 1

abbrev pub connect_failed : ℕ
connect_failed = 2

abbrev pub unknown_channel_type : ℕ
unknown_channel_type = 3

unfoldable pub name : ℕ → Option String
name code =
    if code == administratively_prohibited
    then some "SSH_OPEN_ADMINISTRATIVELY_PROHIBITED"
    else if code == connect_failed
    then some "SSH_OPEN_CONNECT_FAILED"
    else if code == unknown_channel_type
    then some "SSH_OPEN_UNKNOWN_CHANNEL_TYPE"
    else if code == resource_shortage
    then some "SSH_OPEN_RESOURCE_SHORTAGE"
    else none
