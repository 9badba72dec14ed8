-- ===== src/Tcp/Negotiate.antt =====
-- crates/tatami_ssh_tcp/src/negotiate.rs: the negotiation of RFC 4253, section 7.1. A `String` of the
-- outcome is its bytes: the names of a parsed list are ASCII, which `from_utf8_lossy` keeps.
pub mod Picks
pub mod Spec
pub mod Strict
pub mod Profile
use Prim.Native.String.{String}
use tatami_ssh.Prelude.{
  Bool, true, false, not, ◌&&◌, ◌||◌, Option, none, some, List, [], ◌∷◌, Bytes, Result, ok, err,
  bytes_eq, if◌then◌else◌, find, filter, any,
}
use tatami_ssh.Prelude.Results.{ok_or, ◌>>=◌}
use tatami_ssh.Wire.Algorithms
use tatami_ssh.Wire.Algorithms.{
  curve25519_sha256, aes128_gcm_openssh, ext_info_s, kex_strict_c, kex_strict_c_openssh,
}
use tatami_ssh.Wire.NameList
use tatami_ssh.Wire.NameList.{NameList, any_eq}
use tatami_ssh.Wire.KexInit.{KexInit}
use tatami_ssh.Wire.KexInit.Markers.{
  KexName, StrictKexRole, StrictKexSpelling, StrictKexMarker, client, server, standard, openssh_v00,
  same_spelling, classify_strict_kex_name, classify_kex_name, method,
}
use tatami_ssh.Keys.Algorithm.{SignatureScheme, scheme_from_name}

pub data Mac : Type 0 where
  implicit_aead : Mac

pub record StrictKex : Type 0 where
  pub offered_pre_standard : Bool
  pub offered_standard : Bool
  pub server_pre_standard : Bool
  pub server_standard : Bool
  pub negotiated : Bool

unfoldable pub same_role : StrictKexRole → StrictKexRole → Bool
same_role client client = true
same_role client server = false
same_role server client = false
same_role server server = true

-- `is_some_and` of the closure `offered`.
unfoldable pub marker_is : StrictKexRole → StrictKexSpelling → Option StrictKexMarker → Bool
marker_is role spelling none = false
marker_is role spelling (some m) = same_role m.role role && same_spelling m.spelling spelling

-- The closure `offered`.
unfoldable pub offers : NameList → StrictKexRole → StrictKexSpelling → Bool
unfolding marker_is same_role
offers list role spelling =
    any (λ n. marker_is role spelling (classify_strict_kex_name n)) (NameList.names list)

-- `StrictKex::evaluate`.
unfoldable pub evaluate : KexInit → KexInit → StrictKex
unfolding offers
evaluate c s =
    let offered_pre_standard = offers c.kex_algorithms client openssh_v00 in
    let offered_standard = offers c.kex_algorithms client standard in
    let server_pre_standard = offers s.kex_algorithms server openssh_v00 in
    let server_standard = offers s.kex_algorithms server standard in
    record {
      offered_pre_standard = offered_pre_standard;
      offered_standard = offered_standard;
      server_pre_standard = server_pre_standard;
      server_standard = server_standard;
      negotiated =
          (offered_pre_standard && server_pre_standard) || (offered_standard && server_standard);
    }

-- `StrictKex::offered`.
unfoldable pub offered : KexInit → StrictKex
offered c = record {
  offered_pre_standard = NameList.contains c.kex_algorithms kex_strict_c_openssh;
  offered_standard = NameList.contains c.kex_algorithms kex_strict_c;
  server_pre_standard = false;
  server_standard = false;
  negotiated = false;
}

pub record Negotiated : Type 0 where
  pub kex : Bytes
  pub host_key : Bytes
  pub encryption_client_to_server : Bytes
  pub encryption_server_to_client : Bytes
  pub mac_client_to_server : Mac
  pub mac_server_to_client : Mac
  pub compression_client_to_server : Bytes
  pub compression_server_to_client : Bytes
  pub strict_kex : StrictKex
  pub ext_info : Bool
  pub server_guess_wrong : Bool

pub data Direction : Type 0 where
  client_to_server : Direction
  server_to_client : Direction

pub data NegotiationError : Type 0 where
  no_common_kex : NegotiationError
  no_common_host_key : NegotiationError
  no_common_cipher : Direction → NegotiationError
  no_mac_implemented : Direction → NegotiationError
  no_common_compression : Direction → NegotiationError
  unsupported_selection : (field : String) → (name : Bytes) → NegotiationError

-- `NegotiationError::code`.
unfoldable pub code : NegotiationError → String
code no_common_kex = "no_common_kex"
code no_common_host_key = "no_common_host_key"
code (no_common_cipher _) = "no_common_cipher"
code (no_mac_implemented _) = "no_mac_implemented"
code (no_common_compression _) = "no_common_compression"
code (unsupported_selection _ _) = "unsupported_selection"

unfoldable pub is_aead : Bytes → Bool
is_aead cipher = bytes_eq cipher aes128_gcm_openssh

unfoldable pub host_key_scheme : Negotiated → Option SignatureScheme
host_key_scheme n = scheme_from_name n.host_key

unfoldable pub check_profile : Negotiated → Result NegotiationError (Unit {0})
unfolding is_aead host_key_scheme
check_profile n =
    if not (bytes_eq n.kex curve25519_sha256)
    then err (unsupported_selection "kex_algorithms" n.kex)
    else elim (host_key_scheme n) [
      | none ↦ err (unsupported_selection "server_host_key_algorithms" n.host_key)
      | some _ ↦
          if not (is_aead n.encryption_client_to_server)
          then err (
              unsupported_selection "encryption_algorithms_client_to_server"
                n.encryption_client_to_server)
          else if not (is_aead n.encryption_server_to_client)
          then err (
              unsupported_selection "encryption_algorithms_server_to_client"
                n.encryption_server_to_client)
          else if not (bytes_eq n.compression_client_to_server Algorithms.none)
          then err (
              unsupported_selection "compression_algorithms_client_to_server"
                n.compression_client_to_server)
          else if not (bytes_eq n.compression_server_to_client Algorithms.none)
          then err (
              unsupported_selection "compression_algorithms_server_to_client"
                n.compression_server_to_client)
          else ok tt
    ]

unfoldable pub is_method : Bytes → Bool
is_method n = elim (classify_kex_name n) [ method ↦ true | _ ↦ false ]

unfoldable pub first_method : KexInit → Option Bytes
unfolding is_method
first_method k = find is_method (NameList.names k.kex_algorithms)

unfoldable pub first_common : NameList → NameList → Option Bytes
first_common c s = find (λ n. NameList.contains s n) (NameList.names c)

-- The key exchange method: the client's first method among the server's.
unfoldable pub common_method : KexInit → KexInit → Option Bytes
unfolding is_method
common_method c s =
    let server_methods = filter is_method (NameList.names s.kex_algorithms) in
    find (λ n. any_eq n server_methods) (filter is_method (NameList.names c.kex_algorithms))

-- The closure `mac`.
unfoldable pub mac : Bytes → Direction → Result NegotiationError Mac
unfolding is_aead
mac cipher direction =
    if is_aead cipher then ok implicit_aead else err (no_mac_implemented direction)

abbrev pub same_name : Option Bytes → Option Bytes → Bool
same_name none none = true
same_name none (some _) = false
same_name (some _) none = false
same_name (some a) (some b) = bytes_eq a b

abbrev pub first_name : NameList → Option Bytes
first_name l = (NameList.next (NameList.iter l)).0

unfoldable pub guess_wrong : KexInit → KexInit → Bool
unfolding first_method
guess_wrong c s =
    s.first_kex_packet_follows
    && not (
        same_name (first_method c) (first_method s)
        && same_name (first_name c.server_host_key_algorithms)
            (first_name s.server_host_key_algorithms))

unfoldable pub negotiate : KexInit → KexInit → Result NegotiationError Negotiated
negotiate c s = do
  kex ← ok_or (common_method c s) no_common_kex
  host_key ←
      ok_or (first_common c.server_host_key_algorithms s.server_host_key_algorithms)
        no_common_host_key
  enc_c2s ←
      ok_or (first_common c.encryption_client_to_server s.encryption_client_to_server)
        (no_common_cipher client_to_server)
  enc_s2c ←
      ok_or (first_common c.encryption_server_to_client s.encryption_server_to_client)
        (no_common_cipher server_to_client)
  mac_c2s ← mac enc_c2s client_to_server
  mac_s2c ← mac enc_s2c server_to_client
  comp_c2s ←
      ok_or (first_common c.compression_client_to_server s.compression_client_to_server)
        (no_common_compression client_to_server)
  comp_s2c ←
      ok_or (first_common c.compression_server_to_client s.compression_server_to_client)
        (no_common_compression server_to_client)
  ok (record {
    kex = kex;
    host_key = host_key;
    encryption_client_to_server = enc_c2s;
    encryption_server_to_client = enc_s2c;
    mac_client_to_server = mac_c2s;
    mac_server_to_client = mac_s2c;
    compression_client_to_server = comp_c2s;
    compression_server_to_client = comp_s2c;
    strict_kex = evaluate c s;
    ext_info = NameList.contains s.kex_algorithms ext_info_s;
    server_guess_wrong = guess_wrong c s;
  })
