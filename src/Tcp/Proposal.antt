-- ===== src/Tcp/Proposal.antt =====
-- crates/tatami_ssh_tcp/src/negotiate.rs: the client's own KEXINIT proposal.
pub mod Schemes
pub mod Fits
pub mod Codec
use tatami_ssh.Prelude.{
  ℕ, zero, suc, ◌+◌, ◌≤◌, Bool, true, false, ◌||◌, Option, none, some, List, [], ◌∷◌, ◌++◌, Bytes,
  Result, ok, err, Outcome, map, take, length, if◌then◌else◌, filter, ◌>>=◌, ◌>>◌, pure, done, fail,
  any,
}
use tatami_ssh.Wire.Algorithms
use tatami_ssh.Wire.Error.{EncodeError}
use tatami_ssh.Wire.Msg
use tatami_ssh.Wire.Writer
use tatami_ssh.Wire.Writer.{
  Write, Writer, write_u8, write_bool, write_u32, write_bytes, write_name_list,
}
use tatami_ssh.Keys.Algorithm.{
  SignatureScheme, ed25519_scheme, ecdsa_p256_sha256, rsa_sha2_512_scheme, rsa_sha2_256_scheme,
  preference, scheme_name,
}

abbrev pub same_scheme : SignatureScheme → SignatureScheme → Bool
same_scheme ed25519_scheme ed25519_scheme = true
same_scheme ecdsa_p256_sha256 ecdsa_p256_sha256 = true
same_scheme rsa_sha2_512_scheme rsa_sha2_512_scheme = true
same_scheme rsa_sha2_256_scheme rsa_sha2_256_scheme = true
same_scheme _ _ = false

-- `schemes` is an array of four, of which the first `filled` count.
pub record HostKeyAlgorithms : Type 0 where
  pub schemes : List SignatureScheme
  pub filled : ℕ

pub data HostKeyAlgorithmsError : Type 0 where
  empty : HostKeyAlgorithmsError
  duplicate : SignatureScheme → HostKeyAlgorithmsError

-- `ED25519_ONLY`, which is `Default::default`.
abbrev pub ed25519_only : HostKeyAlgorithms
ed25519_only = record {
  schemes = ed25519_scheme ∷ ed25519_scheme ∷ ed25519_scheme ∷ ed25519_scheme ∷ [];
  filled = 1;
}

abbrev pub as_slice : HostKeyAlgorithms → List SignatureScheme
as_slice h = take h.filled h.schemes

-- `schemes[i] = s`; an index outside the array would panic.
abbrev pub set_at : ℕ → SignatureScheme → List SignatureScheme → List SignatureScheme
set_at i s [] = []
set_at zero s (x ∷ xs) = s ∷ xs
set_at (suc i) s (x ∷ xs) = x ∷ set_at i s xs

abbrev pub push : SignatureScheme → HostKeyAlgorithms → HostKeyAlgorithms
push s out = record { schemes = set_at out.filled s out.schemes; filled = out.filled + 1 }

-- The loop of `new`.
unfoldable pub new_loop :
    HostKeyAlgorithms → List SignatureScheme → Result HostKeyAlgorithmsError HostKeyAlgorithms
new_loop out [] = ok out
new_loop out (s ∷ ss) =
    let rest = new_loop (push s out) ss in
    if any (same_scheme s) (as_slice out) then err (duplicate s) else rest

-- `HostKeyAlgorithms::new`.
unfoldable pub new : List SignatureScheme → Result HostKeyAlgorithmsError HostKeyAlgorithms
unfolding new_loop
new [] = err empty
new (first ∷ ss) =
    new_loop (record { schemes = first ∷ first ∷ first ∷ first ∷ []; filled = 0 }) (first ∷ ss)

-- `HostKeyAlgorithms::preferred`: the array's first `n` entries are the schemes that pass the test.
unfoldable pub preferred : (SignatureScheme → Bool) → Option HostKeyAlgorithms
unfolding new
preferred can_verify = elim (new (filter can_verify preference)) [
  | ok list ↦ some list
  | err _ ↦ none
]

pub record ClientProposal : Type 0 where
  pub cookie : Bytes
  pub advertise_ext_info : Bool
  pub offer_strict_kex : Bool
  pub host_key_algorithms : HostKeyAlgorithms

unfoldable pub kex_algorithms : ClientProposal → List Bytes
kex_algorithms p =
    (Algorithms.curve25519_sha256 ∷ [])
    ++ ((if p.advertise_ext_info then Algorithms.ext_info_c ∷ [] else [])
        ++ (if p.offer_strict_kex
            then Algorithms.kex_strict_c_openssh ∷ Algorithms.kex_strict_c ∷ []
            else []))

-- The writes of `ClientProposal::encode`.
pub proposal_writes : ClientProposal → Write
unfolding kex_algorithms
proposal_writes p = do
  write_u8 Msg.kexinit
  write_bytes p.cookie
  write_name_list (kex_algorithms p)
  write_name_list (map scheme_name (as_slice p.host_key_algorithms))
  write_name_list (Algorithms.aes128_gcm_openssh ∷ [])
  write_name_list (Algorithms.aes128_gcm_openssh ∷ [])
  write_name_list (Algorithms.hmac_sha2_256 ∷ [])
  write_name_list (Algorithms.hmac_sha2_256 ∷ [])
  write_name_list (Algorithms.none ∷ [])
  write_name_list (Algorithms.none ∷ [])
  write_name_list []
  write_name_list []
  write_bool false
  write_u32 0

-- `vec![0u8; n]`.
unfoldable pub zeros : ℕ → Bytes
zeros zero = []
zeros (suc n) = 0 ∷ zeros n

-- `ClientProposal::encode`: the bytes written, cut off at the writer's position.
unfoldable pub proposal_encode : ClientProposal → Result EncodeError Bytes
unfolding proposal_writes zeros
proposal_encode p = elim (proposal_writes p (Writer.new (zeros 512))) [
  | done _ w ↦ ok (take w.pos w.out)
  | fail e _ ↦ err e
]
