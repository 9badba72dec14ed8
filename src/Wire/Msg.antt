-- ===== src/Wire/Msg.antt =====
-- crates/tatami_ssh_wire/src/msg.rs: the message numbers.
use Prim.Native.String.{String}
use tatami_ssh.Prelude.{Option, none, some, ◌==◌, if◌then◌else◌, ℕ, Bool, ◌&&◌, leb}

abbrev pub disconnect : ℕ
disconnect = 1

abbrev pub ignore : ℕ
ignore = 2

abbrev pub unimplemented : ℕ
unimplemented = 3

abbrev pub debug : ℕ
debug = 4

abbrev pub service_request : ℕ
service_request = 5

abbrev pub service_accept : ℕ
service_accept = 6

abbrev pub ext_info : ℕ
ext_info = 7

abbrev pub kexinit : ℕ
kexinit = 20

abbrev pub newkeys : ℕ
newkeys = 21

abbrev pub kex_ecdh_init : ℕ
kex_ecdh_init = 30

abbrev pub kex_ecdh_reply : ℕ
kex_ecdh_reply = 31

abbrev pub channel_open : ℕ
channel_open = 90

abbrev pub channel_open_confirmation : ℕ
channel_open_confirmation = 91

abbrev pub channel_open_failure : ℕ
channel_open_failure = 92

unfoldable pub is_kex_method_specific : ℕ → Bool
is_kex_method_specific number = leb 30 number && leb number 49

-- For diagnostics only.
unfoldable pub name : ℕ → Option String
name number =
    if number == disconnect
    then some "SSH_MSG_DISCONNECT"
    else if number == ignore
    then some "SSH_MSG_IGNORE"
    else if number == unimplemented
    then some "SSH_MSG_UNIMPLEMENTED"
    else if number == debug
    then some "SSH_MSG_DEBUG"
    else if number == service_request
    then some "SSH_MSG_SERVICE_REQUEST"
    else if number == service_accept
    then some "SSH_MSG_SERVICE_ACCEPT"
    else if number == ext_info
    then some "SSH_MSG_EXT_INFO"
    else if number == kexinit
    then some "SSH_MSG_KEXINIT"
    else if number == newkeys
    then some "SSH_MSG_NEWKEYS"
    else if number == kex_ecdh_init
    then some "SSH_MSG_KEX_ECDH_INIT"
    else if number == kex_ecdh_reply
    then some "SSH_MSG_KEX_ECDH_REPLY"
    else if number == channel_open
    then some "SSH_MSG_CHANNEL_OPEN"
    else if number == channel_open_confirmation
    then some "SSH_MSG_CHANNEL_OPEN_CONFIRMATION"
    else if number == channel_open_failure
    then some "SSH_MSG_CHANNEL_OPEN_FAILURE"
    else none
