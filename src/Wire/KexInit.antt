-- ===== src/Wire/KexInit.antt =====
-- crates/tatami_ssh_wire/src/kexinit.rs: the `SSH_MSG_KEXINIT` payload.
pub mod Markers
pub mod Names
pub mod Codec
pub mod Strict
pub mod RoundTrips
pub mod Owned
use Prim.Native.String.{String}
use tatami_ssh.Prelude.{
  ℕ, Bool, true, false, List, [], ◌∷◌, Bytes, Result, Outcome, ◌>>=◌, ◌>>◌, pure, done,
  if◌then◌else◌,
}
use tatami_ssh.Wire.Error.{EncodeError, MessageError}
use tatami_ssh.Wire.Msg
use tatami_ssh.Wire.NameList
use tatami_ssh.Wire.NameList.{NameList}
use tatami_ssh.Wire.Reader.{read_bytes, read_bool, read_u32, read_name_list}
use tatami_ssh.Wire.Writer.{Write, write_u8, write_bool, write_u32, write_bytes, write_name_list}
use tatami_ssh.Wire.Message.{Parser, expect_message, field, finish, decode, encode}

abbrev pub cookie_len : ℕ
cookie_len = 16

pub record KexInit : Type 0 where
  pub cookie : Bytes
  pub kex_algorithms : NameList
  pub server_host_key_algorithms : NameList
  pub encryption_client_to_server : NameList
  pub encryption_server_to_client : NameList
  pub mac_client_to_server : NameList
  pub mac_server_to_client : NameList
  pub compression_client_to_server : NameList
  pub compression_server_to_client : NameList
  pub languages_client_to_server : NameList
  pub languages_server_to_client : NameList
  pub first_kex_packet_follows : Bool
  pub reserved : ℕ

-- The array conversion of the cookie cannot fail: `read_bytes` returns 16 bytes.
pub kexinit_fields : Parser KexInit
kexinit_fields = do
  expect_message Msg.kexinit
  cookie ← field "cookie" (read_bytes cookie_len)
  kex ← field "kex_algorithms" read_name_list
  host_key ← field "server_host_key_algorithms" read_name_list
  encryption_c2s ← field "encryption_algorithms_client_to_server" read_name_list
  encryption_s2c ← field "encryption_algorithms_server_to_client" read_name_list
  mac_c2s ← field "mac_algorithms_client_to_server" read_name_list
  mac_s2c ← field "mac_algorithms_server_to_client" read_name_list
  compression_c2s ← field "compression_algorithms_client_to_server" read_name_list
  compression_s2c ← field "compression_algorithms_server_to_client" read_name_list
  languages_c2s ← field "languages_client_to_server" read_name_list
  languages_s2c ← field "languages_server_to_client" read_name_list
  follows ← field "first_kex_packet_follows" read_bool
  reserved ← field "reserved" read_u32
  finish
  pure (record {
    cookie = cookie;
    kex_algorithms = kex;
    server_host_key_algorithms = host_key;
    encryption_client_to_server = encryption_c2s;
    encryption_server_to_client = encryption_s2c;
    mac_client_to_server = mac_c2s;
    mac_server_to_client = mac_s2c;
    compression_client_to_server = compression_c2s;
    compression_server_to_client = compression_s2c;
    languages_client_to_server = languages_c2s;
    languages_server_to_client = languages_s2c;
    first_kex_packet_follows = follows;
    reserved = reserved;
  })

unfoldable pub kexinit_decode : Bytes → Result MessageError KexInit
unfolding kexinit_fields
kexinit_decode = decode kexinit_fields

abbrev pub name_lists : KexInit → List NameList
name_lists m =
    m.kex_algorithms ∷ m.server_host_key_algorithms ∷ m.encryption_client_to_server
    ∷ m.encryption_server_to_client ∷ m.mac_client_to_server ∷ m.mac_server_to_client
    ∷ m.compression_client_to_server ∷ m.compression_server_to_client ∷ m.languages_client_to_server
    ∷ m.languages_server_to_client ∷ []

-- The loop of `encode` over the name lists.
unfoldable pub write_lists : List NameList → Write
write_lists [] = pure tt
write_lists (l ∷ ls) = do write_name_list (NameList.names l); write_lists ls

pub kexinit_writes : KexInit → Write
kexinit_writes m = do
  write_u8 Msg.kexinit
  write_bytes m.cookie
  write_lists (name_lists m)
  write_bool m.first_kex_packet_follows
  write_u32 m.reserved

unfoldable pub kexinit_encode : KexInit → Bytes → Outcome Bytes EncodeError ℕ
unfolding kexinit_writes
kexinit_encode m = encode (kexinit_writes m)

-- `ALGORITHM_LIST_NAMES`.
abbrev pub algorithm_list_names : List String
algorithm_list_names =
    "kex_algorithms" ∷ "server_host_key_algorithms" ∷ "encryption_algorithms_client_to_server"
    ∷ "encryption_algorithms_server_to_client" ∷ "mac_algorithms_client_to_server"
    ∷ "mac_algorithms_server_to_client" ∷ "compression_algorithms_client_to_server"
    ∷ "compression_algorithms_server_to_client" ∷ []

-- The names whose list, at the same index, is empty.
unfoldable pub empty_names : List String → List NameList → List String
empty_names [] ls = []
empty_names (n ∷ ns) [] = []
empty_names (n ∷ ns) (l ∷ ls) =
    if NameList.is_empty l then n ∷ empty_names ns ls else empty_names ns ls

unfoldable pub empty_algorithm_lists : KexInit → List String
unfolding empty_names
empty_algorithm_lists m = empty_names algorithm_list_names (name_lists m)
