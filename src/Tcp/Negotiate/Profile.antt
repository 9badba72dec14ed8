-- ===== src/Tcp/Negotiate/Profile.antt =====
-- crates/tatami_ssh_tcp/src/negotiate.rs: what the client's own proposal can agree on.
use mathlib.Core.List.Memᴰ.{head, tail}
use tatami_ssh.Prelude.{
  Bool, true, false, ◌≡◌, refl, sym, subst, ◌∙◌, arith, List, [], ◌∷◌, ◌++◌, Bytes, Result, ok, err,
  map, Memᴰ, bytes_eq_iff, Chosen, if◌then◌else◌,
}
use tatami_ssh.Wire.Algorithms
use tatami_ssh.Wire.NameList
use tatami_ssh.Wire.NameList.Join.{names-join}
use tatami_ssh.Wire.KexInit.{KexInit}
use tatami_ssh.Wire.KexInit.Names.{IsMarkerName, ext_info_c, strict}
use tatami_ssh.Wire.KexInit.Markers.{client, standard, openssh_v00, name}
use tatami_ssh.Keys.Algorithm.{SignatureScheme, scheme_name}
use tatami_ssh.Keys.Algorithm.Names.{scheme_from_name_iff}
use tatami_ssh.Tcp.Negotiate.{Negotiated, NegotiationError, negotiate, check_profile}
use tatami_ssh.Tcp.Negotiate.Spec.{Negotiates, Agreed, IsAead, agreed, negotiate-Negotiates}
use tatami_ssh.Tcp.Proposal.{ClientProposal, kex_algorithms, as_slice}
use tatami_ssh.Tcp.Proposal.Codec.{proposal_init}
use tatami_ssh.Tcp.Proposal.Fits.{
  IsProposal, kex-Fits, host_keys-Fits, none-Fits, scheme_names, joined,
}

pub Negotiates-ok :
    (c s : KexInit) (r : Result NegotiationError Negotiated) (n : Negotiated)
    → Negotiates c s r
    → r ≡ ok n
    → Agreed c s n
Negotiates-ok c s (err _) n d e = absurd cc
Negotiates-ok c s (ok _) n (agreed m a) e = let same : m ≡ n = cc in subst (Agreed c s) same a

chosen-mem : (P : Bytes → Type 0) (xs : List Bytes) (x : Bytes) → Chosen P xs x → Memᴰ x xs
chosen-mem P xs x c = subst (λ ys. Memᴰ x ys) (sym c.split) (inside c.before)
  where
    inside : (before : List Bytes) → Memᴰ x (before ++ (x ∷ c.after))
    inside [] = head refl
    inside (y ∷ ys) = tail (inside ys)

check_profile-ok :
    (n : Negotiated) (s : SignatureScheme)
    → n.kex ≡ Algorithms.curve25519_sha256
    → n.host_key ≡ scheme_name s
    → IsAead n.encryption_client_to_server
    → IsAead n.encryption_server_to_client
    → n.compression_client_to_server ≡ Algorithms.none
    → n.compression_server_to_client ≡ Algorithms.none
    → check_profile n ≡ ok tt
unfolding check_profile
check_profile-ok n s a b c d e f =
    let a' = (bytes_eq_iff _ _).1 a in
    let b' = (scheme_from_name_iff n.host_key s).1 b in
    let c' = (bytes_eq_iff _ _).1 c in
    let d' = (bytes_eq_iff _ _).1 d in
    let e' = (bytes_eq_iff _ _).1 e in let f' = (bytes_eq_iff _ _).1 f in ground arith

strict-markers :
    (b : Bool) (x : Bytes)
    → Memᴰ x (if b then Algorithms.kex_strict_c_openssh ∷ Algorithms.kex_strict_c ∷ [] else [])
    → IsMarkerName x
unfolding name
strict-markers true x (head e) = rw e (strict (record { role = client; spelling = openssh_v00 }))
strict-markers true x (tail (head e)) =
    rw e (strict (record { role = client; spelling = standard }))
strict-markers true x (tail (tail m)) = elim m [ ]
strict-markers false x m = elim m [ ]

offered-markers :
    (a b : Bool) (x : Bytes)
    → Memᴰ x (
        (if a then Algorithms.ext_info_c ∷ [] else [])
        ++ (if b then Algorithms.kex_strict_c_openssh ∷ Algorithms.kex_strict_c ∷ [] else []))
    → IsMarkerName x
offered-markers true b x (head e) = rw e ext_info_c
offered-markers true b x (tail m) = strict-markers b x m
offered-markers false b x m = strict-markers b x m

kex-method :
    (p : ClientProposal) (x : Bytes)
    → Memᴰ x (kex_algorithms p)
    → (¬ IsMarkerName x)
    → x ≡ Algorithms.curve25519_sha256
unfolding kex_algorithms
kex-method p x (head e) h = e
kex-method p x (tail m) h = absurd (h (offered-markers p.advertise_ext_info p.offer_strict_kex x m))

mem-scheme :
    (ss : List SignatureScheme) (x : Bytes)
    → Memᴰ x (map scheme_name ss)
    → (s : SignatureScheme) × (x ≡ scheme_name s)
mem-scheme [] x m = elim m [ ]
mem-scheme (s ∷ ss) x (head e) = (s, e)
mem-scheme (s ∷ ss) x (tail m) = mem-scheme ss x m

only_none :
    (x : Bytes) → Memᴰ x (NameList.names (joined (Algorithms.none ∷ []))) → x ≡ Algorithms.none
only_none x m =
    of_single (subst (λ ns. Memᴰ x ns) (names-join (Algorithms.none ∷ []) none-Fits.names) m)
  where
    of_single : Memᴰ x (Algorithms.none ∷ []) → x ≡ Algorithms.none
    of_single (head e) = e
    of_single (tail t) = elim t [ ]

-- Whatever the server proposes, an agreement on the client's own proposal is one that this client
-- implements: `check_profile` passes.
pub negotiate-check_profile :
    (p : ClientProposal) (s : KexInit) (n : Negotiated)
    → IsProposal p
    → negotiate (proposal_init p) s ≡ ok n
    → check_profile n ≡ ok tt
negotiate-check_profile p s n h e =
    let c = proposal_init p in
    let a = Negotiates-ok c s (negotiate c s) n (negotiate-Negotiates c s) e in
    let keys = a.ciphers.keys in
    let kex_mem =
      subst (λ ns. Memᴰ keys.kex ns) (names-join (kex_algorithms p) (kex-Fits p).names)
        (chosen-mem _ _ _ keys.method) in
    let key_mem =
      subst (λ ns. Memᴰ keys.host_key ns) (names-join (scheme_names p) (host_keys-Fits p h).names)
        (chosen-mem _ _ _ keys.host_key_chosen) in
    let (scheme, named) = mem-scheme (as_slice p.host_key_algorithms) keys.host_key key_mem in
    check_profile-ok n scheme (a.kex ∙ kex-method p keys.kex kex_mem keys.method.holds.0)
      (a.host_key ∙ named) (a.out ∙ a.out_aead) (a.back ∙ a.back_aead)
      (only_none _ (chosen-mem _ _ _ a.compression_out))
      (only_none _ (chosen-mem _ _ _ a.compression_back))
