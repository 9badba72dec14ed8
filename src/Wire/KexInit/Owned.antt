-- ===== src/Wire/KexInit/Owned.antt =====
-- crates/tatami_ssh_wire/src/kexinit.rs: the owned copy of the message. A `String` is its bytes: the
-- names of a parsed list are ASCII, which `from_utf8_lossy` keeps.
use tatami_ssh.Prelude.{ℕ, Bool, List, Bytes}
use tatami_ssh.Wire.NameList
use tatami_ssh.Wire.NameList.{NameList}
use tatami_ssh.Wire.KexInit.{KexInit}

pub record OwnedKexInit : Type 0 where
  pub cookie : Bytes
  pub kex_algorithms : List Bytes
  pub server_host_key_algorithms : List Bytes
  pub encryption_client_to_server : List Bytes
  pub encryption_server_to_client : List Bytes
  pub mac_client_to_server : List Bytes
  pub mac_server_to_client : List Bytes
  pub compression_client_to_server : List Bytes
  pub compression_server_to_client : List Bytes
  pub languages_client_to_server : List Bytes
  pub languages_server_to_client : List Bytes
  pub first_kex_packet_follows : Bool
  pub reserved : ℕ

own : NameList → List Bytes
own list = NameList.names list

unfoldable pub to_owned : KexInit → OwnedKexInit
unfolding own
to_owned m = record {
  cookie = m.cookie;
  kex_algorithms = own m.kex_algorithms;
  server_host_key_algorithms = own m.server_host_key_algorithms;
  encryption_client_to_server = own m.encryption_client_to_server;
  encryption_server_to_client = own m.encryption_server_to_client;
  mac_client_to_server = own m.mac_client_to_server;
  mac_server_to_client = own m.mac_server_to_client;
  compression_client_to_server = own m.compression_client_to_server;
  compression_server_to_client = own m.compression_server_to_client;
  languages_client_to_server = own m.languages_client_to_server;
  languages_server_to_client = own m.languages_server_to_client;
  first_kex_packet_follows = m.first_kex_packet_follows;
  reserved = m.reserved;
}
