-- ===== src/Tcp/Examples.antt =====
-- crates/tatami_ssh_tcp/src/packet.rs and negotiate.rs: the theorems at concrete values.
use tatami_ssh.Prelude.{
  ℕ, zero, suc, ◌≡◌, ◌↔◌, refl, arith, true, false, List, [], ◌∷◌, ◌++◌, Bytes, ok, codes, bytes_eq,
  some,
}
use tatami_ssh.Wire.Algorithms
use tatami_ssh.Wire.Bytes.{from_be_onto}
use tatami_ssh.Wire.KexInit.{KexInit, kexinit_decode}
use tatami_ssh.Wire.KexInit.Markers.{
  StrictKexSpelling, client, server, classify_kex_name, classify_strict_kex_name, strict_kex_name,
}
use tatami_ssh.Keys.Algorithm.{SignatureScheme, ed25519_scheme, rsa_sha2_512_scheme, scheme_name}
use tatami_ssh.Tcp.Packet.{
  InitialPacket, default_packet_limits, decode_initial_packet, encode_initial_packet_with, fill,
  complete, need_more, decode_length, decode_body, payload_len,
}
use tatami_ssh.Tcp.Packet.Frames
use tatami_ssh.Tcp.Packet.Frames.{
  encode_initial_packet_with-decode, length-fill, padding_for_bounds,
}
use tatami_ssh.Tcp.Packet.Decisions.{Decision, decode_initial_packet-Decision}
use tatami_ssh.Tcp.Packet.Sound
use tatami_ssh.Tcp.Packet.Sound.{decode_initial_packet-Frames}
use tatami_ssh.Wire.NameList
use tatami_ssh.Wire.NameList.{any_eq}
use tatami_ssh.Wire.NameList.Join.{join}
use tatami_ssh.Tcp.Negotiate.{
  Negotiated, negotiate, evaluate, check_profile, common_method, first_common, mac, guess_wrong,
  implicit_aead,
}
use tatami_ssh.Tcp.Proposal.{kex_algorithms, ClientProposal, ed25519_only, proposal_encode}
use tatami_ssh.Tcp.Negotiate.Picks.{In}
use tatami_ssh.Tcp.Negotiate.Spec.{Negotiates, negotiate-Negotiates}
use tatami_ssh.Tcp.Negotiate.Strict.{marker_of, evaluate_iff}
use tatami_ssh.Tcp.Negotiate.Profile.{negotiate-check_profile}
use tatami_ssh.Tcp.Proposal
use tatami_ssh.Tcp.Proposal.Fits.{IsProposal, joined}
use tatami_ssh.Tcp.Proposal.Codec.{proposal_init, proposal_encode-decode}
use tatami_ssh.Tcp.Proposal.Schemes.{Accepted, new-Accepted}

abbrev zeros : ℕ → Bytes
zeros zero = []
zeros (suc n) = 0 ∷ zeros n

abbrev hello : Bytes
hello = codes "hello"

encode_initial_packet_with-decode_example :
    Frames.Frames hello default_packet_limits
      (zeros 64)
      (1 ∷ 2 ∷ [])
      (encode_initial_packet_with hello (fill 7) (zeros 64))
encode_initial_packet_with-decode_example =
    encode_initial_packet_with-decode hello (fill 7) (zeros 64) (1 ∷ 2 ∷ []) default_packet_limits
      (length-fill 7) (omega (arith, padding_for_bounds 10)) (omega (arith, padding_for_bounds 10))
      (omega (arith, padding_for_bounds 10))

decode_initial_packet-Decision_example :
    Decision
      (0 ∷ 0 ∷ 0 ∷ 12 ∷ 6 ∷ [])
      (zeros 11)
      default_packet_limits
      (decode_initial_packet (0 ∷ 0 ∷ 0 ∷ 12 ∷ 6 ∷ []) default_packet_limits)
decode_initial_packet-Decision_example =
    decode_initial_packet-Decision (0 ∷ 0 ∷ 0 ∷ 12 ∷ 6 ∷ []) (zeros 11) default_packet_limits

-- The four bytes of the length field are enough to name the packet's length.
length_only :
    decode_initial_packet (0 ∷ 0 ∷ 0 ∷ 12 ∷ []) default_packet_limits ≡ ok (need_more (some 16))
unfolding decode_initial_packet decode_length from_be_onto
length_only = refl

abbrev a_packet : InitialPacket
a_packet = record { payload = hello; padding = zeros 6; total_len = 16 }

abbrev a_frame : Bytes
a_frame = 0 ∷ 0 ∷ 0 ∷ 12 ∷ 6 ∷ (hello ++ (zeros 6 ++ (9 ∷ [])))

a_frame-decoded : decode_initial_packet a_frame default_packet_limits ≡ ok (complete a_packet)
unfolding decode_initial_packet decode_length decode_body payload_len from_be_onto
a_frame-decoded = refl

decode_initial_packet-Frames_example : Sound.Frames a_frame default_packet_limits a_packet
decode_initial_packet-Frames_example =
    decode_initial_packet-Frames a_frame default_packet_limits a_packet (ground arith)
      a_frame-decoded

abbrev a_proposal : ClientProposal
a_proposal = record {
  cookie = zeros 16;
  advertise_ext_info = true;
  offer_strict_kex = true;
  host_key_algorithms = ed25519_only;
}

a_proposal-IsProposal : IsProposal a_proposal
a_proposal-IsProposal = record { cookie = refl; schemes = refl }

abbrev a_server : KexInit
a_server = record (proposal_init a_proposal) {
  kex_algorithms = joined (Algorithms.curve25519_sha256 ∷ Algorithms.kex_strict_s_openssh ∷ []);
}

negotiate-Negotiates_example :
    Negotiates (proposal_init a_proposal) a_server (negotiate (proposal_init a_proposal) a_server)
negotiate-Negotiates_example = negotiate-Negotiates (proposal_init a_proposal) a_server

abbrev an_agreement : Negotiated
an_agreement = record {
  kex = Algorithms.curve25519_sha256;
  host_key = Algorithms.ssh_ed25519;
  encryption_client_to_server = Algorithms.aes128_gcm_openssh;
  encryption_server_to_client = Algorithms.aes128_gcm_openssh;
  mac_client_to_server = implicit_aead;
  mac_server_to_client = implicit_aead;
  compression_client_to_server = Algorithms.none;
  compression_server_to_client = Algorithms.none;
  strict_kex = record {
    offered_pre_standard = true;
    offered_standard = true;
    server_pre_standard = true;
    server_standard = false;
    negotiated = true;
  };
  ext_info = false;
  server_guess_wrong = false;
}

agreement : negotiate (proposal_init a_proposal) a_server ≡ ok an_agreement
unfolding negotiate common_method first_common mac evaluate guess_wrong kex_algorithms
    NameList.names NameList.collect NameList.next NameList.iter NameList.contains any_eq bytes_eq
    classify_kex_name classify_strict_kex_name strict_kex_name join scheme_name
agreement = refl

negotiate-check_profile_example : check_profile an_agreement ≡ ok tt
negotiate-check_profile_example =
    negotiate-check_profile a_proposal a_server an_agreement a_proposal-IsProposal agreement

evaluate_iff_example : ((evaluate (proposal_init a_proposal) a_server).negotiated ≡ true) ↔ (
    (spelling : StrictKexSpelling) × In
      (proposal_init a_proposal).kex_algorithms
      (marker_of client spelling)
    × In a_server.kex_algorithms (marker_of server spelling))
evaluate_iff_example = evaluate_iff (proposal_init a_proposal) a_server

proposal_encode-decode_example :
    (payload : Bytes) × (proposal_encode a_proposal ≡ ok payload)
    × (kexinit_decode payload ≡ ok (proposal_init a_proposal))
proposal_encode-decode_example = proposal_encode-decode a_proposal a_proposal-IsProposal

abbrev twice : List SignatureScheme
twice = ed25519_scheme ∷ rsa_sha2_512_scheme ∷ ed25519_scheme ∷ []

new-Accepted_example : Accepted twice (Proposal.new twice)
new-Accepted_example = new-Accepted twice
