-- ===== src/Tcp/Proposal/Codec.antt =====
-- crates/tatami_ssh_tcp/src/negotiate.rs: the proposal that the client encodes, as a KEXINIT.
use tatami_ssh.Prelude.{
  ℕ, zero, suc, ◌+◌, ◌≤◌, ◌≡◌, refl, ap, arith, false, List, [], ◌∷◌, ◌++◌, Bytes, ok, length,
  length-append,
}
use tatami_ssh.Wire.Algorithms
use tatami_ssh.Wire.Bytes.{to_be32}
use tatami_ssh.Wire.Msg
use tatami_ssh.Wire.NameList.{NameList}
use tatami_ssh.Wire.Writer
use tatami_ssh.Wire.Writer.{write_u8, write_bytes, write_bool, write_u32, write_name_list}
use tatami_ssh.Wire.Writer.Emits.{
  Emits, >>-Emits, write_u8-Emits, write_bytes-Emits, write_bool-Emits, write_u32-Emits,
}
use tatami_ssh.Wire.KexInit.{KexInit, kexinit_decode, name_lists}
use tatami_ssh.Wire.KexInit.Codec.{IsKexInit, kexinit_wire, decode-kexinit_wire, wire_lists}
use tatami_ssh.Tcp.Proposal.{
  ClientProposal, kex_algorithms, proposal_writes, proposal_encode, zeros,
}
use tatami_ssh.Tcp.Proposal.Fits.{
  IsProposal, joined, scheme_names, list-IsNameList, list-Emits, kex-Fits, aead-Fits, mac-Fits,
  none-Fits, empty-Fits, host_keys-Fits,
}

-- The message that the proposal stands for.
abbrev pub proposal_init : ClientProposal → KexInit
proposal_init p = record {
  cookie = p.cookie;
  kex_algorithms = joined (kex_algorithms p);
  server_host_key_algorithms = joined (scheme_names p);
  encryption_client_to_server = joined (Algorithms.aes128_gcm_openssh ∷ []);
  encryption_server_to_client = joined (Algorithms.aes128_gcm_openssh ∷ []);
  mac_client_to_server = joined (Algorithms.hmac_sha2_256 ∷ []);
  mac_server_to_client = joined (Algorithms.hmac_sha2_256 ∷ []);
  compression_client_to_server = joined (Algorithms.none ∷ []);
  compression_server_to_client = joined (Algorithms.none ∷ []);
  languages_client_to_server = joined [];
  languages_server_to_client = joined [];
  first_kex_packet_follows = false;
  reserved = 0;
}

pub proposal-IsKexInit : (p : ClientProposal) → IsProposal p → IsKexInit (proposal_init p)
proposal-IsKexInit p h =
    let aead = list-IsNameList _ 22 aead-Fits (omega arith) in
    let mac = list-IsNameList _ 13 mac-Fits (omega arith) in
    let plain = list-IsNameList _ 4 none-Fits (omega arith) in
    let nothing = list-IsNameList [] 0 empty-Fits (omega arith) in
    record {
      cookie = h.cookie;
      lists = (
        list-IsNameList _ 70 (kex-Fits p) (omega arith),
        (
          list-IsNameList _ 80 (host_keys-Fits p h) (omega arith),
          (aead, (aead, (mac, (mac, (plain, (plain, (nothing, (nothing, tt)))))))),
        ),
      );
      reserved = omega arith;
    }

proposal-Emits :
    (p : ClientProposal) → IsProposal p → Emits (proposal_writes p) (kexinit_wire (proposal_init p))
unfolding proposal_writes
proposal-Emits p h =
    let aead = list-Emits _ 22 aead-Fits (omega arith) in
    let mac = list-Emits _ 13 mac-Fits (omega arith) in
    let plain = list-Emits _ 4 none-Fits (omega arith) in
    let nothing = list-Emits [] 0 empty-Fits (omega arith) in
    >>-Emits (write_u8 Msg.kexinit) _ (Msg.kexinit ∷ []) _ (write_u8-Emits Msg.kexinit) (
      >>-Emits (write_bytes p.cookie) _ p.cookie _ (write_bytes-Emits p.cookie) (
        >>-Emits _ _ _ _ (list-Emits _ 70 (kex-Fits p) (omega arith)) (
          >>-Emits _ _ _ _ (list-Emits _ 80 (host_keys-Fits p h) (omega arith)) (
            >>-Emits _ _ _ _ aead (
              >>-Emits _ _ _ _ aead (
                >>-Emits _ _ _ _ mac (
                  >>-Emits _ _ _ _ mac (
                    >>-Emits _ _ _ _ plain (
                      >>-Emits _ _ _ _ plain (
                        >>-Emits _ _ _ _ nothing (
                          >>-Emits _ _ _ _ nothing (
                            >>-Emits (write_bool false) (write_u32 0) (0 ∷ []) (to_be32 0)
                              (write_bool-Emits false) (write_u32-Emits 0)))))))))))))

lists_size : List NameList → ℕ
lists_size [] = 0
lists_size (l ∷ ls) = 4 + length l.body + lists_size ls

length-wire_lists :
    (ls : List NameList) (tail : Bytes) → length (wire_lists ls tail) ≡ lists_size ls + length tail
unfolding lists_size
length-wire_lists [] tail = omega arith
length-wire_lists (l ∷ ls) tail =
    omega (arith, length-append l.body (wire_lists ls tail), length-wire_lists ls tail)

wire-fits : (p : ClientProposal) → IsProposal p → length (kexinit_wire (proposal_init p)) ≤ 512
unfolding lists_size
wire-fits p h =
    let tail = (0 ∷ []) ++ to_be32 0 in
    let lists = name_lists (proposal_init p) in
    omega (
      arith,
      length-append p.cookie (wire_lists lists tail),
      length-wire_lists lists tail,
      h.cookie,
      (kex-Fits p).size,
      (host_keys-Fits p h).size,
      aead-Fits.size,
      mac-Fits.size,
      none-Fits.size,
      empty-Fits.size,
    )

length-zeros : (n : ℕ) → length (zeros n) ≡ n
unfolding zeros
length-zeros zero = refl
length-zeros (suc n) = ap suc (length-zeros n)

-- A proposal with a 16-byte cookie and an array of four schemes encodes, within its buffer of 512
-- bytes, and the payload decodes to the KEXINIT with exactly the lists of the proposal.
pub proposal_encode-decode :
    (p : ClientProposal)
    → IsProposal p
    → (payload : Bytes) × (proposal_encode p ≡ ok payload)
      × (kexinit_decode payload ≡ ok (proposal_init p))
unfolding proposal_encode
proposal_encode-decode p h =
    let room = wire-fits p h in
    let wire = kexinit_wire (proposal_init p) in
    let (w, e, wrote) =
      (proposal-Emits p h).0 (Writer.new (zeros 512)) (record { pos_le = omega arith })
        (omega (arith, length-zeros 512)) in
    (
      wire,
      rw (e, proposal_encode) (ap ok wrote.appended),
      decode-kexinit_wire (proposal_init p) (proposal-IsKexInit p h),
    )
