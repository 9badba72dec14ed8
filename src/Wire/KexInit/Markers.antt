-- ===== src/Wire/KexInit/Markers.antt =====
-- crates/tatami_ssh_wire/src/kexinit.rs: the names of `kex_algorithms` that are no methods.
use tatami_ssh.Prelude.{
  Bool, true, false, ◌&&◌, Option, none, some, Bytes, if◌then◌else◌, bytes_eq, codes,
}

pub data KexName : Type 0 where
  method : KexName
  ext_info_client : KexName
  ext_info_server : KexName
  strict_kex_client : KexName
  strict_kex_server : KexName

unfoldable pub is_marker : KexName → Bool
is_marker method = false
is_marker ext_info_client = true
is_marker ext_info_server = true
is_marker strict_kex_client = true
is_marker strict_kex_server = true

pub data StrictKexRole : Type 0 where
  client : StrictKexRole
  server : StrictKexRole

pub data StrictKexSpelling : Type 0 where
  standard : StrictKexSpelling
  openssh_v00 : StrictKexSpelling

pub record StrictKexMarker : Type 0 where
  pub role : StrictKexRole
  pub spelling : StrictKexSpelling

marker_name : StrictKexRole → StrictKexSpelling → Bytes
marker_name client standard = codes "kex-strict-c"
marker_name server standard = codes "kex-strict-s"
marker_name client openssh_v00 = codes "kex-strict-c-v00@openssh.com"
marker_name server openssh_v00 = codes "kex-strict-s-v00@openssh.com"

-- `StrictKexMarker::name`.
unfoldable pub name : StrictKexMarker → Bytes
unfolding marker_name
name m = marker_name m.role m.spelling

abbrev pub opposite : StrictKexRole → StrictKexRole → Bool
opposite client client = false
opposite client server = true
opposite server client = true
opposite server server = false

abbrev pub same_spelling : StrictKexSpelling → StrictKexSpelling → Bool
same_spelling standard standard = true
same_spelling standard openssh_v00 = false
same_spelling openssh_v00 standard = false
same_spelling openssh_v00 openssh_v00 = true

unfoldable pub pairs_with : StrictKexMarker → StrictKexMarker → Bool
pairs_with m peer = opposite m.role peer.role && same_spelling m.spelling peer.spelling

abbrev pub marker : StrictKexRole → StrictKexSpelling → Option StrictKexMarker
marker role spelling = some (record { role = role; spelling = spelling })

unfoldable pub classify_strict_kex_name : Bytes → Option StrictKexMarker
classify_strict_kex_name n =
    if bytes_eq n (codes "kex-strict-c")
    then marker client standard
    else if bytes_eq n (codes "kex-strict-s")
    then marker server standard
    else if bytes_eq n (codes "kex-strict-c-v00@openssh.com")
    then marker client openssh_v00
    else if bytes_eq n (codes "kex-strict-s-v00@openssh.com")
    then marker server openssh_v00
    else none

-- The name of a marker, without its spelling.
unfoldable pub strict_kex_name : Option StrictKexMarker → KexName
strict_kex_name none = method
strict_kex_name (some m) = elim m.role [ client ↦ strict_kex_client | server ↦ strict_kex_server ]

unfoldable pub classify_kex_name : Bytes → KexName
unfolding strict_kex_name
classify_kex_name n =
    if bytes_eq n (codes "ext-info-c")
    then ext_info_client
    else if bytes_eq n (codes "ext-info-s")
    then ext_info_server
    else strict_kex_name (classify_strict_kex_name n)
