-- ===== src/Tcp/Negotiate/Spec.antt =====
-- crates/tatami_ssh_tcp/src/negotiate.rs: RFC 4253, section 7.1, as a relation between the two
-- proposals and the result.
use tatami_ssh.Prelude.{
  ◌≡◌, refl, Bytes, Result, ok, err, Chosen, NoneOf, bytes_eq, bytes_eq_iff, Bool-cases, inl, inr,
}
use tatami_ssh.Prelude.Results.{◌>>=◌, ok_or_elim}
use tatami_ssh.Wire.Algorithms.{aes128_gcm_openssh, ext_info_s}
use tatami_ssh.Wire.NameList
use tatami_ssh.Wire.KexInit.{KexInit}
use tatami_ssh.Tcp.Negotiate.{
  Mac, Direction, Negotiated, NegotiationError, negotiate, common_method, first_common, mac,
  implicit_aead, evaluate, guess_wrong, no_common_kex, no_common_host_key, no_common_cipher,
  no_mac_implemented, no_common_compression, client_to_server, server_to_client,
}
use tatami_ssh.Tcp.Negotiate.Picks.{
  FirstCommon, NoCommon, IsMethodOf, first_common-some, first_common-none, common_method-some,
  common_method-none,
}

-- The proposals have a key exchange method and a host key algorithm in common.
pub record Keys (c s : KexInit) : Type 0 where
  pub kex : Bytes
  pub method : Chosen (IsMethodOf s.kex_algorithms) (NameList.names c.kex_algorithms) kex
  pub host_key : Bytes
  pub host_key_chosen :
      FirstCommon c.server_host_key_algorithms s.server_host_key_algorithms host_key

-- They have a cipher in common in each direction as well.
pub record Ciphers (c s : KexInit) : Type 0 where
  pub keys : Keys c s
  pub out : Bytes
  pub out_chosen : FirstCommon c.encryption_client_to_server s.encryption_client_to_server out
  pub back : Bytes
  pub back_chosen : FirstCommon c.encryption_server_to_client s.encryption_server_to_client back

abbrev pub IsAead : Bytes → Type 0
IsAead n = n ≡ aes128_gcm_openssh

pub record Agreed (c s : KexInit) (n : Negotiated) : Type 0 where
  pub ciphers : Ciphers c s
  pub kex : n.kex ≡ ciphers.keys.kex
  pub host_key : n.host_key ≡ ciphers.keys.host_key
  pub out : n.encryption_client_to_server ≡ ciphers.out
  pub out_aead : IsAead ciphers.out
  pub back : n.encryption_server_to_client ≡ ciphers.back
  pub back_aead : IsAead ciphers.back
  pub compression_out :
      FirstCommon c.compression_client_to_server s.compression_client_to_server
        n.compression_client_to_server
  pub compression_back :
      FirstCommon c.compression_server_to_client s.compression_server_to_client
        n.compression_server_to_client
  pub strict_kex : n.strict_kex ≡ evaluate c s
  pub ext_info : n.ext_info ≡ NameList.contains s.kex_algorithms ext_info_s
  pub guess : n.server_guess_wrong ≡ guess_wrong c s

-- The result that the rules give, and for an error the first rule that fails.
pub data Negotiates (c s : KexInit) : Result NegotiationError Negotiated → Type 0 where
  no_kex :
      NoneOf (IsMethodOf s.kex_algorithms) (NameList.names c.kex_algorithms)
      → Negotiates c s (err no_common_kex)
  no_host_key :
      (kex : Bytes)
      → Chosen (IsMethodOf s.kex_algorithms) (NameList.names c.kex_algorithms) kex
      → NoCommon c.server_host_key_algorithms s.server_host_key_algorithms
      → Negotiates c s (err no_common_host_key)
  no_cipher_out :
      Keys c s
      → NoCommon c.encryption_client_to_server s.encryption_client_to_server
      → Negotiates c s (err (no_common_cipher client_to_server))
  no_cipher_back :
      Keys c s
      → (out : Bytes) → FirstCommon c.encryption_client_to_server s.encryption_client_to_server out
      → NoCommon c.encryption_server_to_client s.encryption_server_to_client
      → Negotiates c s (err (no_common_cipher server_to_client))
  no_mac_out :
      (k : Ciphers c s)
      → ¬ IsAead k.out
      → Negotiates c s (err (no_mac_implemented client_to_server))
  no_mac_back :
      (k : Ciphers c s)
      → IsAead k.out
      → ¬ IsAead k.back
      → Negotiates c s (err (no_mac_implemented server_to_client))
  no_compression_out :
      (k : Ciphers c s)
      → IsAead k.out
      → IsAead k.back
      → NoCommon c.compression_client_to_server s.compression_client_to_server
      → Negotiates c s (err (no_common_compression client_to_server))
  no_compression_back :
      (k : Ciphers c s)
      → IsAead k.out
      → IsAead k.back
      → (out : Bytes)
      → FirstCommon c.compression_client_to_server s.compression_client_to_server out
      → NoCommon c.compression_server_to_client s.compression_server_to_client
      → Negotiates c s (err (no_common_compression server_to_client))
  agreed : (n : Negotiated) → Agreed c s n → Negotiates c s (ok n)

-- `mac(…)?` followed by `f`.
mac_elim :
    {A : Type 0} (P : Result NegotiationError A → Type 0) (n : Bytes) (d : Direction)
    (f : Mac → Result NegotiationError A)
    → (¬ IsAead n → P (err (no_mac_implemented d)))
    → (IsAead n → P (f implicit_aead))
    → P (mac n d >>= f)
unfolding mac
mac_elim P n d f x y = elim (Bool-cases (bytes_eq n aes128_gcm_openssh)) [
  | inl t ↦ rw t (y ((bytes_eq_iff n aes128_gcm_openssh).0 t))
  | inr g ↦ rw g (x (λ e. let t = (bytes_eq_iff n aes128_gcm_openssh).1 e in absurd cc))
]

-- `negotiate` applies RFC 4253, section 7.1. The key exchange method is the client's first name
-- that is no marker and that the server lists too; the host key algorithm, the two ciphers and the
-- two compressions are each the client's first name that the server lists. An error names the
-- first of these rules that fails, in this order, with the ciphers' MAC rule behind the ciphers:
-- both are the AEAD cipher, or the first that is not has no MAC.
pub negotiate-Negotiates : (c s : KexInit) → Negotiates c s (negotiate c s)
unfolding negotiate
negotiate-Negotiates c s =
    let P = Negotiates c s in
    ok_or_elim P (common_method c s) no_common_kex _ (λ e. no_kex (common_method-none c s e))
      (λ kex ek.
        let method = common_method-some c s kex ek in
        ok_or_elim P (first_common c.server_host_key_algorithms s.server_host_key_algorithms)
          no_common_host_key _ (λ e. no_host_key kex method (first_common-none _ _ e))
          (λ host_key eh.
            let keys : Keys c s = record {
              kex = kex;
              method = method;
              host_key = host_key;
              host_key_chosen = first_common-some _ _ host_key eh;
            } in
            ok_or_elim P (first_common c.encryption_client_to_server s.encryption_client_to_server)
              (no_common_cipher client_to_server) _
              (λ e. no_cipher_out keys (first_common-none _ _ e))
              (λ out eo.
                let out_chosen =
                  first_common-some c.encryption_client_to_server s.encryption_client_to_server out
                    eo in
                ok_or_elim P
                  (first_common c.encryption_server_to_client s.encryption_server_to_client)
                  (no_common_cipher server_to_client) _
                  (λ e. no_cipher_back keys out out_chosen (first_common-none _ _ e))
                  (λ back eb.
                    let k : Ciphers c s = record {
                      keys = keys;
                      out = out;
                      out_chosen = out_chosen;
                      back = back;
                      back_chosen = first_common-some _ _ back eb;
                    } in
                    mac_elim P out client_to_server _ (λ no. no_mac_out k no)
                      (λ a.
                        mac_elim P back server_to_client _ (λ no. no_mac_back k a no)
                          (λ b.
                            ok_or_elim P
                              (first_common c.compression_client_to_server
                                s.compression_client_to_server)
                              (no_common_compression client_to_server) _
                              (λ e. no_compression_out k a b (first_common-none _ _ e))
                              (λ cout eco.
                                let cout_chosen =
                                  first_common-some c.compression_client_to_server
                                    s.compression_client_to_server cout eco in
                                ok_or_elim P
                                  (first_common c.compression_server_to_client
                                    s.compression_server_to_client)
                                  (no_common_compression server_to_client) _
                                  (λ e.
                                    no_compression_back k a b cout cout_chosen
                                      (first_common-none _ _ e))
                                  (λ cback ecb. agreed _ (record {
                                    ciphers = k;
                                    kex = refl;
                                    host_key = refl;
                                    out = refl;
                                    out_aead = a;
                                    back = refl;
                                    back_aead = b;
                                    compression_out = cout_chosen;
                                    compression_back = first_common-some _ _ cback ecb;
                                    strict_kex = refl;
                                    ext_info = refl;
                                    guess = refl;
                                  })))))))))
