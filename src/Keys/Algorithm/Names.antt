-- ===== src/Keys/Algorithm/Names.antt =====
-- crates/tatami_ssh_keys/src/algorithm.rs: names and what they stand for.
use tatami_ssh.Prelude.{
  ◌≡◌, ◌↔◌, refl, sym, ap, ◌∙◌, none, some, List, [], ◌∷◌, Bytes, bytes_eq, bytes_eq_iff, find,
  if_elim,
}
use tatami_ssh.Wire.Algorithms.{ssh_rsa}
use tatami_ssh.Keys.Algorithm.{
  KeyType, SignatureScheme, key_type_name, key_type_from_name, scheme_name, scheme_from_name,
  ed25519, rsa, ecdsa_p256, ed25519_scheme, ecdsa_p256_sha256, rsa_sha2_512_scheme,
  rsa_sha2_256_scheme, preference,
}

-- A value that `find` takes by its name has that name.
find_named :
    {A : Type 0} (name : A → Bytes) (n : Bytes) (xs : List A) (a : A)
    → find (λ x. bytes_eq (name x) n) xs ≡ some a
    → name a ≡ n
find_named name n [] a h = absurd cc
find_named name n (x ∷ xs) a h =
    if_elim (λ o. o ≡ some a → name a ≡ n) (bytes_eq (name x) n) (some x)
      (find (λ y. bytes_eq (name y) n) xs)
      (λ t k. let same : x ≡ a = cc in ap name (sym same) ∙ (bytes_eq_iff (name x) n).0 t)
      (λ _ k. find_named name n xs a k) h

scheme_from_name-name : (s : SignatureScheme) → scheme_from_name (scheme_name s) ≡ some s
unfolding scheme_from_name scheme_name bytes_eq
scheme_from_name-name ed25519_scheme = refl
scheme_from_name-name ecdsa_p256_sha256 = refl
scheme_from_name-name rsa_sha2_512_scheme = refl
scheme_from_name-name rsa_sha2_256_scheme = refl

-- A name selects a signature scheme exactly when it is the scheme's own name.
pub scheme_from_name_iff :
    (n : Bytes) (s : SignatureScheme) → (scheme_from_name n ≡ some s) ↔ (n ≡ scheme_name s)
unfolding scheme_from_name
scheme_from_name_iff n s =
    (λ h. sym (find_named scheme_name n preference s h), λ e. rw e (scheme_from_name-name s))

key_type_from_name-name : (k : KeyType) → key_type_from_name (key_type_name k) ≡ some k
unfolding key_type_from_name key_type_name bytes_eq
key_type_from_name-name ed25519 = refl
key_type_from_name-name rsa = refl
key_type_from_name-name ecdsa_p256 = refl

-- A name selects a key type exactly when it is the type's own name.
pub key_type_from_name_iff :
    (n : Bytes) (k : KeyType) → (key_type_from_name n ≡ some k) ↔ (n ≡ key_type_name k)
unfolding key_type_from_name
key_type_from_name_iff n k = (
  λ h. sym (find_named key_type_name n (ed25519 ∷ rsa ∷ ecdsa_p256 ∷ []) k h),
  λ e. rw e (key_type_from_name-name k),
)

-- `ssh-rsa` names a key type and no signature scheme: RSA with SHA-1 cannot be selected.
pub ssh_rsa-none : scheme_from_name ssh_rsa ≡ none
unfolding scheme_from_name scheme_name bytes_eq
ssh_rsa-none = refl
