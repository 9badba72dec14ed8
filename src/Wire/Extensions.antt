-- ===== src/Wire/Extensions.antt =====
-- crates/tatami_ssh_wire/src/ext_info.rs and kexinit.rs: the theorems at concrete messages.
use tatami_ssh.Prelude.{
  ℕ, zero, suc, ◌≡◌, ◌↔◌, refl, arith, true, false, none, some, List, [], ◌∷◌, Bytes, codes,
}
use tatami_ssh.Wire.Reader
use tatami_ssh.Wire.NameList
use tatami_ssh.Wire.RoundTrips.{RoundTrip}
use tatami_ssh.Wire.ExtInfo.{ExtInfo, Pair, Extensions, size_hint, next, validate, to_owned}
use tatami_ssh.Wire.ExtInfo.Codec
use tatami_ssh.Wire.ExtInfo.Codec.{ext_info-RoundTrip}
use tatami_ssh.Wire.ExtInfo.Owned.{Owns, to_owned-Owns}
use tatami_ssh.Wire.ExtInfo.Iterate.{after, next-exhausted}
use tatami_ssh.Wire.KexInit.{KexInit, kexinit_decode, kexinit_encode}
use tatami_ssh.Wire.KexInit.Codec.{IsKexInit, kexinit_wire, decode-kexinit_wire}
use tatami_ssh.Wire.KexInit.RoundTrips.{kexinit_encode-decode}
use tatami_ssh.Wire.KexInit.Strict.{Stands, kexinit_decode-wire}
use tatami_ssh.Wire.KexInit.Markers.{
  StrictKexMarker, client, server, standard, openssh_v00, classify_kex_name, is_marker,
}
use tatami_ssh.Wire.KexInit.Names.{IsMarkerName, is_marker_iff}

abbrev zeros : ℕ → Bytes
zeros zero = []
zeros (suc n) = 0 ∷ zeros n

abbrev two_pairs : List Pair
two_pairs = (codes "server-sig-algs", codes "ssh-ed25519") ∷ (codes "elevation", codes "y") ∷ []

ext_info-RoundTrip_example : Codec.RoundTrip two_pairs 16 (zeros 128)
ext_info-RoundTrip_example =
    ext_info-RoundTrip two_pairs 16 (zeros 128) (ground arith) (omega arith) (omega arith)
      (omega arith)

-- Two pairs are announced, and one is there.
abbrev short_message : ExtInfo
short_message = record {
  claimed = 2;
  count = 2;
  body = Reader.new (0 ∷ 0 ∷ 0 ∷ 1 ∷ 97 ∷ 0 ∷ 0 ∷ 0 ∷ 0 ∷ []);
}

to_owned-Owns_example : Owns short_message 4 (validate short_message 4) (to_owned short_message 4)
to_owned-Owns_example = to_owned-Owns short_message 4

abbrev one_left : Extensions
one_left = record { r = Reader.new (0 ∷ 0 ∷ 0 ∷ 9 ∷ []); remaining = 1; failed = false }

one_left_hint : size_hint one_left ≡ (0, some 1)
unfolding size_hint
one_left_hint = refl

next-exhausted_example : (next (after 1 one_left)).0 ≡ none
next-exhausted_example = next-exhausted one_left 1 1 one_left_hint (omega arith)

abbrev a_cookie : Bytes
a_cookie = 1 ∷ 2 ∷ 3 ∷ 4 ∷ 5 ∷ 6 ∷ 7 ∷ 8 ∷ 9 ∷ 10 ∷ 11 ∷ 12 ∷ 13 ∷ 14 ∷ 15 ∷ 16 ∷ []

abbrev a_kexinit : KexInit
a_kexinit = record {
  cookie = a_cookie;
  kex_algorithms = record { body = codes "ext-info-c" };
  server_host_key_algorithms = NameList.empty;
  encryption_client_to_server = NameList.empty;
  encryption_server_to_client = NameList.empty;
  mac_client_to_server = NameList.empty;
  mac_server_to_client = NameList.empty;
  compression_client_to_server = NameList.empty;
  compression_server_to_client = NameList.empty;
  languages_client_to_server = NameList.empty;
  languages_server_to_client = NameList.empty;
  first_kex_packet_follows = true;
  reserved = 0;
}

a_kexinit-fits : IsKexInit a_kexinit
unfolding NameList.parse
a_kexinit-fits = record { cookie = refl; lists = ground arith; reserved = omega arith }

kexinit_encode-decode_example :
    RoundTrip kexinit_decode a_kexinit (kexinit_encode a_kexinit (zeros 100))
kexinit_encode-decode_example =
    kexinit_encode-decode a_kexinit (zeros 100) a_kexinit-fits (omega arith)

kexinit_decode-wire_example : Stands a_kexinit (kexinit_wire a_kexinit)
kexinit_decode-wire_example =
    kexinit_decode-wire (kexinit_wire a_kexinit) a_kexinit (ground arith)
      (decode-kexinit_wire a_kexinit a_kexinit-fits)

is_marker_iff_example :
    (is_marker (classify_kex_name (codes "kex-strict-s")) ≡ true)
    ↔ IsMarkerName (codes "kex-strict-s")
is_marker_iff_example = is_marker_iff (codes "kex-strict-s")

abbrev client_marker : StrictKexMarker
client_marker = record { role = client; spelling = openssh_v00 }

abbrev server_marker : StrictKexMarker
server_marker = record { role = server; spelling = standard }
