-- ===== src/Wire/DisconnectReason.antt =====
-- crates/tatami_ssh_wire/src/transport.rs: the module `disconnect_reason`.
use Prim.Native.String.{String}
use tatami_ssh.Prelude.{ℕ, Option, none, some, ◌==◌, if◌then◌else◌}

abbrev pub host_not_allowed_to_connect : ℕ
host_not_allowed_to_connect = 1

abbrev pub protocol_error : ℕ
protocol_error = 2

abbrev pub key_exchange_failed : ℕ
key_exchange_failed = 3

abbrev pub reserved : ℕ
reserved = 4

abbrev pub mac_error : ℕ
mac_error = 5

abbrev pub compression_error : ℕ
compression_error = 6

abbrev pub service_not_available : ℕ
service_not_available = 7

abbrev pub protocol_version_not_supported : ℕ
protocol_version_not_supported = 8

abbrev pub host_key_not_verifiable : ℕ
host_key_not_verifiable = 9

abbrev pub connection_lost : ℕ
connection_lost = 10

abbrev pub by_application : ℕ
by_application = 11

abbrev pub too_many_connections : ℕ
too_many_connections = 12

abbrev pub auth_cancelled_by_user : ℕ
auth_cancelled_by_user = 13

abbrev pub no_more_auth_methods_available : ℕ
no_more_auth_methods_available = 14

abbrev pub illegal_user_name : ℕ
illegal_user_name = 15

unfoldable pub name : ℕ → Option String
name code =
    if code == host_not_allowed_to_connect
    then some "SSH_DISCONNECT_HOST_NOT_ALLOWED_TO_CONNECT"
    else if code == protocol_error
    then some "SSH_DISCONNECT_PROTOCOL_ERROR"
    else if code == key_exchange_failed
    then some "SSH_DISCONNECT_KEY_EXCHANGE_FAILED"
    else if code == reserved
    then some "SSH_DISCONNECT_RESERVED"
    else if code == mac_error
    then some "SSH_DISCONNECT_MAC_ERROR"
    else if code == compression_error
    then some "SSH_DISCONNECT_COMPRESSION_ERROR"
    else if code == service_not_available
    then some "SSH_DISCONNECT_SERVICE_NOT_AVAILABLE"
    else if code == protocol_version_not_supported
    then some "SSH_DISCONNECT_PROTOCOL_VERSION_NOT_SUPPORTED"
    else if code == host_key_not_verifiable
    then some "SSH_DISCONNECT_HOST_KEY_NOT_VERIFIABLE"
    else if code == connection_lost
    then some "SSH_DISCONNECT_CONNECTION_LOST"
    else if code == by_application
    then some "SSH_DISCONNECT_BY_APPLICATION"
    else if code == too_many_connections
    then some "SSH_DISCONNECT_TOO_MANY_CONNECTIONS"
    else if code == auth_cancelled_by_user
    then some "SSH_DISCONNECT_AUTH_CANCELLED_BY_USER"
    else if code == no_more_auth_methods_available
    then some "SSH_DISCONNECT_NO_MORE_AUTH_METHODS_AVAILABLE"
    else if code == illegal_user_name
    then some "SSH_DISCONNECT_ILLEGAL_USER_NAME"
    else none
