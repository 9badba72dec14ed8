-- ===== src/Tcp/Proposal/Fits.antt =====
-- crates/tatami_ssh_tcp/src/negotiate.rs: the name lists of the proposal, and their sizes.
use tatami_ssh.Prelude.{
  ℕ, zero, suc, ◌+◌, ◌*◌, ◌≤◌, ◌≡◌, refl, arith, Bool, true, false, List, [], ◌∷◌, Bytes, All, map,
  take, length, length-append,
}
use tatami_ssh.Wire.Algorithms
use tatami_ssh.Wire.Bytes.{wire_string}
use tatami_ssh.Wire.NameList.{NameList, is_valid_name}
use tatami_ssh.Wire.NameList.Join.{IsName, join, parse-join}
use tatami_ssh.Wire.Writer.{write_name_list}
use tatami_ssh.Wire.Writer.NameLists.{write_name_list-Emits}
use tatami_ssh.Wire.Writer.Emits.{Emits}
use tatami_ssh.Wire.KexInit.Codec.{IsNameList}
use tatami_ssh.Keys.Algorithm.{
  SignatureScheme, scheme_name, ed25519_scheme, ecdsa_p256_sha256, rsa_sha2_512_scheme,
  rsa_sha2_256_scheme,
}
use tatami_ssh.Tcp.Proposal.{ClientProposal, as_slice, kex_algorithms, HostKeyAlgorithms}

abbrev pub joined : List Bytes → NameList
joined ns = record { body = join ns }

abbrev pub scheme_names : ClientProposal → List Bytes
scheme_names p = map scheme_name (as_slice p.host_key_algorithms)

-- A list of names, and how many bytes they take.
pub record Fits (ns : List Bytes) (n : ℕ) : Type 0 where
  pub names : All IsName ns
  pub size : length (join ns) ≤ n

pub list-IsNameList : (ns : List Bytes) (n : ℕ) → Fits ns n → n ≤ 255 → IsNameList (joined ns)
list-IsNameList ns n f h = (parse-join ns f.names, omega (arith, f.size))

pub list-Emits :
    (ns : List Bytes) (n : ℕ)
    → Fits ns n
    → n ≤ 255
    → Emits (write_name_list ns) (wire_string (join ns))
list-Emits ns n f h = write_name_list-Emits ns f.names (omega (arith, f.size))

scheme_name-IsName : (s : SignatureScheme) → IsName (scheme_name s) × (length (scheme_name s) ≤ 19)
unfolding scheme_name is_valid_name
scheme_name-IsName ed25519_scheme = (refl, omega arith)
scheme_name-IsName ecdsa_p256_sha256 = (refl, omega arith)
scheme_name-IsName rsa_sha2_512_scheme = (refl, omega arith)
scheme_name-IsName rsa_sha2_256_scheme = (refl, omega arith)

length-join :
    (n : Bytes) (ns : List Bytes) → length (join (n ∷ ns)) ≤ length n + (1 + length (join ns))
unfolding join
length-join n [] = omega arith
length-join n (m ∷ ns) = omega (arith, length-append n (b',' ∷ join (m ∷ ns)))

schemes-Fits : (ss : List SignatureScheme) → Fits (map scheme_name ss) (20 * length ss)
schemes-Fits [] = record { names = tt; size = unfold join in omega arith }
schemes-Fits (s ∷ ss) =
    let rest = schemes-Fits ss in
    let (name, short) = scheme_name-IsName s in
    record {
      names = (name, rest.names);
      size = omega (arith, length-join (scheme_name s) (map scheme_name ss), rest.size);
    }

kex_names-Fits :
    (cookie : Bytes) (a b : Bool) (h : HostKeyAlgorithms)
    → Fits
        (kex_algorithms (record {
          cookie = cookie;
          advertise_ext_info = a;
          offer_strict_kex = b;
          host_key_algorithms = h;
        }))
        70
unfolding kex_algorithms join is_valid_name
kex_names-Fits cookie true true h = record {
  names = (refl, (refl, (refl, (refl, tt))));
  size = omega arith;
}
kex_names-Fits cookie true false h = record { names = (refl, (refl, tt)); size = omega arith }
kex_names-Fits cookie false true h = record {
  names = (refl, (refl, (refl, tt)));
  size = omega arith;
}
kex_names-Fits cookie false false h = record { names = (refl, tt); size = omega arith }

pub kex-Fits : (p : ClientProposal) → Fits (kex_algorithms p) 70
kex-Fits p = kex_names-Fits p.cookie p.advertise_ext_info p.offer_strict_kex p.host_key_algorithms

pub aead-Fits : Fits (Algorithms.aes128_gcm_openssh ∷ []) 22
unfolding join is_valid_name
aead-Fits = record { names = (refl, tt); size = omega arith }

pub mac-Fits : Fits (Algorithms.hmac_sha2_256 ∷ []) 13
unfolding join is_valid_name
mac-Fits = record { names = (refl, tt); size = omega arith }

pub none-Fits : Fits (Algorithms.none ∷ []) 4
unfolding join is_valid_name
none-Fits = record { names = (refl, tt); size = omega arith }

pub empty-Fits : Fits [] 0
unfolding join
empty-Fits = record { names = tt; size = omega arith }

-- What the types say: a cookie of 16 bytes and an array of four schemes.
pub record IsProposal (p : ClientProposal) : Type 0 where
  pub cookie : length p.cookie ≡ 16
  pub schemes : length p.host_key_algorithms.schemes ≡ 4

length-take_min : (n : ℕ) (xs : List SignatureScheme) → length (take n xs) ≤ length xs
length-take_min zero xs = omega arith
length-take_min (suc n) [] = omega arith
length-take_min (suc n) (x ∷ xs) = omega (arith, length-take_min n xs)

pub host_keys-Fits : (p : ClientProposal) → IsProposal p → Fits (scheme_names p) 80
host_keys-Fits p h =
    let h4 = p.host_key_algorithms in
    let fits = schemes-Fits (as_slice h4) in
    record {
      names = fits.names;
      size = omega (arith, fits.size, length-take_min h4.filled h4.schemes, h.schemes);
    }
