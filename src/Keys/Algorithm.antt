-- ===== src/Keys/Algorithm.antt =====
-- crates/tatami_ssh_keys/src/algorithm.rs: host-key types and signature schemes.
pub mod Names
use tatami_ssh.Prelude.{
  ℕ, Bool, true, false, Option, none, some, List, [], ◌∷◌, Bytes, bytes_eq, find,
}
use tatami_ssh.Wire.Algorithms.{
  ssh_ed25519, ssh_rsa, ecdsa_sha2_nistp256, rsa_sha2_512, rsa_sha2_256,
}

pub data KeyType : Type 0 where
  ed25519 : KeyType
  rsa : KeyType
  ecdsa_p256 : KeyType

unfoldable pub key_type_name : KeyType → Bytes
key_type_name ed25519 = ssh_ed25519
key_type_name rsa = ssh_rsa
key_type_name ecdsa_p256 = ecdsa_sha2_nistp256

unfoldable pub key_type_from_name : Bytes → Option KeyType
key_type_from_name n = find (λ k. bytes_eq (key_type_name k) n) (ed25519 ∷ rsa ∷ ecdsa_p256 ∷ [])

-- The Cargo features of the build.
pub record Features : Type 0 where
  pub ed25519_on : Bool
  pub rsa_on : Bool
  pub ecdsa_p256_on : Bool

unfoldable pub key_type_is_enabled : Features → KeyType → Bool
key_type_is_enabled f ed25519 = f.ed25519_on
key_type_is_enabled f rsa = f.rsa_on
key_type_is_enabled f ecdsa_p256 = f.ecdsa_p256_on

unfoldable pub sshfp_algorithm : KeyType → ℕ
sshfp_algorithm rsa = 1
sshfp_algorithm ecdsa_p256 = 3
sshfp_algorithm ed25519 = 4

pub data SignatureScheme : Type 0 where
  ed25519_scheme : SignatureScheme
  ecdsa_p256_sha256 : SignatureScheme
  rsa_sha2_512_scheme : SignatureScheme
  rsa_sha2_256_scheme : SignatureScheme

-- `SignatureScheme::PREFERENCE`.
abbrev pub preference : List SignatureScheme
preference = ed25519_scheme ∷ ecdsa_p256_sha256 ∷ rsa_sha2_512_scheme ∷ rsa_sha2_256_scheme ∷ []

unfoldable pub scheme_name : SignatureScheme → Bytes
scheme_name ed25519_scheme = ssh_ed25519
scheme_name ecdsa_p256_sha256 = ecdsa_sha2_nistp256
scheme_name rsa_sha2_512_scheme = rsa_sha2_512
scheme_name rsa_sha2_256_scheme = rsa_sha2_256

unfoldable pub scheme_from_name : Bytes → Option SignatureScheme
scheme_from_name n = find (λ s. bytes_eq (scheme_name s) n) preference

unfoldable pub scheme_key_type : SignatureScheme → KeyType
scheme_key_type ed25519_scheme = ed25519
scheme_key_type ecdsa_p256_sha256 = ecdsa_p256
scheme_key_type rsa_sha2_512_scheme = rsa
scheme_key_type rsa_sha2_256_scheme = rsa

unfoldable pub scheme_is_enabled : Features → SignatureScheme → Bool
unfolding key_type_is_enabled scheme_key_type
scheme_is_enabled f s = key_type_is_enabled f (scheme_key_type s)

unfoldable pub needs_provider : SignatureScheme → Bool
needs_provider ed25519_scheme = false
needs_provider ecdsa_p256_sha256 = true
needs_provider rsa_sha2_512_scheme = true
needs_provider rsa_sha2_256_scheme = true
