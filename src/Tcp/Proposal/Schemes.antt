-- ===== src/Tcp/Proposal/Schemes.antt =====
-- crates/tatami_ssh_tcp/src/negotiate.rs: which lists of host key schemes are accepted.
use tatami_ssh.Prelude.{
  ℕ, zero, suc, ◌+◌, ◌≤◌, ◌<◌, ◌≡◌, refl, sym, ap, ◌∙◌, arith, true, false, List, [], ◌∷◌, ◌++◌,
  Result, ok, err, take, length, length-append, append_assoc, append-nil, any, if◌then◌else◌, Memᴰ,
  Bool-cases, inl, inr, if_elim, any_iff, any-cons_false, subst,
}
use tatami_ssh.Keys.Algorithm.{
  SignatureScheme, ed25519_scheme, ecdsa_p256_sha256, rsa_sha2_512_scheme, rsa_sha2_256_scheme,
}
use tatami_ssh.Tcp.Proposal.{
  HostKeyAlgorithms, HostKeyAlgorithmsError, same_scheme, as_slice, set_at, push, new_loop, new,
  empty, duplicate,
}

pub count : SignatureScheme → List SignatureScheme → ℕ
count s [] = 0
count s (x ∷ xs) = (if same_scheme s x then 1 else 0) + count s xs

-- No scheme stands twice in the list.
abbrev pub Unique : List SignatureScheme → Type 0
Unique xs = (s : SignatureScheme) → count s xs ≤ 1

length-count :
    (xs : List SignatureScheme)
    → length xs
      ≡ count ed25519_scheme xs
        + count ecdsa_p256_sha256 xs
        + count rsa_sha2_512_scheme xs
        + count rsa_sha2_256_scheme xs
unfolding count
length-count [] = refl
length-count (ed25519_scheme ∷ xs) = omega (arith, length-count xs)
length-count (ecdsa_p256_sha256 ∷ xs) = omega (arith, length-count xs)
length-count (rsa_sha2_512_scheme ∷ xs) = omega (arith, length-count xs)
length-count (rsa_sha2_256_scheme ∷ xs) = omega (arith, length-count xs)

Unique-length : (xs : List SignatureScheme) → Unique xs → length xs ≤ 4
Unique-length xs u = omega (
  arith,
  length-count xs,
  u ed25519_scheme,
  u ecdsa_p256_sha256,
  u rsa_sha2_512_scheme,
  u rsa_sha2_256_scheme,
)

count-append :
    (s : SignatureScheme) (xs ys : List SignatureScheme)
    → count s (xs ++ ys) ≡ count s xs + count s ys
unfolding count
count-append s [] ys = omega arith
count-append s (x ∷ xs) ys = omega (arith, count-append s xs ys)

same_scheme-eq : (s t : SignatureScheme) → same_scheme s t ≡ true → s ≡ t
same_scheme-eq ed25519_scheme ed25519_scheme h = refl
same_scheme-eq ed25519_scheme ecdsa_p256_sha256 h = absurd cc
same_scheme-eq ed25519_scheme rsa_sha2_512_scheme h = absurd cc
same_scheme-eq ed25519_scheme rsa_sha2_256_scheme h = absurd cc
same_scheme-eq ecdsa_p256_sha256 ed25519_scheme h = absurd cc
same_scheme-eq ecdsa_p256_sha256 ecdsa_p256_sha256 h = refl
same_scheme-eq ecdsa_p256_sha256 rsa_sha2_512_scheme h = absurd cc
same_scheme-eq ecdsa_p256_sha256 rsa_sha2_256_scheme h = absurd cc
same_scheme-eq rsa_sha2_512_scheme ed25519_scheme h = absurd cc
same_scheme-eq rsa_sha2_512_scheme ecdsa_p256_sha256 h = absurd cc
same_scheme-eq rsa_sha2_512_scheme rsa_sha2_512_scheme h = refl
same_scheme-eq rsa_sha2_512_scheme rsa_sha2_256_scheme h = absurd cc
same_scheme-eq rsa_sha2_256_scheme ed25519_scheme h = absurd cc
same_scheme-eq rsa_sha2_256_scheme ecdsa_p256_sha256 h = absurd cc
same_scheme-eq rsa_sha2_256_scheme rsa_sha2_512_scheme h = absurd cc
same_scheme-eq rsa_sha2_256_scheme rsa_sha2_256_scheme h = refl

count-absent :
    (s : SignatureScheme) (xs : List SignatureScheme)
    → any (same_scheme s) xs ≡ false
    → count s xs ≡ 0
unfolding count
count-absent s [] h = refl
count-absent s (x ∷ xs) h =
    let (f, g) = any-cons_false (same_scheme s) x xs h in rw f (omega (arith, count-absent s xs g))

Unique-append :
    (s : SignatureScheme) (xs : List SignatureScheme)
    → Unique xs
    → any (same_scheme s) xs ≡ false
    → Unique (xs ++ (s ∷ []))
unfolding count
Unique-append s xs u h t = elim (Bool-cases (same_scheme t s)) [
  | inl e ↦
      let same = same_scheme-eq t s e in
      let one : count t (s ∷ []) ≡ 1 = rw e refl in
      let absent : count t xs ≡ 0 = rw same (count-absent s xs h) in
      omega (arith, count-append t xs (s ∷ []))
  | inr f ↦
      let zero_more : count t (s ∷ []) ≡ 0 = rw f refl in
      omega (arith, count-append t xs (s ∷ []), u t)
]

-- What `new` makes of a list: the empty list and the first scheme that stands twice are refused; any
-- other list is kept as it is, and fits the array.
pub data Accepted (ss : List SignatureScheme)
    : Result HostKeyAlgorithmsError HostKeyAlgorithms → Type 0 where
  refused_empty : ss ≡ [] → Accepted ss (err empty)
  refused_duplicate :
      (before : List SignatureScheme) (s : SignatureScheme) (after : List SignatureScheme)
      → ss ≡ before ++ (s ∷ after)
      → Unique before
      → Memᴰ s before
      → Accepted ss (err (duplicate s))
  listed :
      (h : HostKeyAlgorithms)
      → as_slice h ≡ ss
      → Unique ss
      → 0 < h.filled
      → h.filled ≤ 4
      → length h.schemes ≡ 4
      → Accepted ss (ok h)

same_scheme_self : (s : SignatureScheme) → same_scheme s s ≡ true
same_scheme_self ed25519_scheme = refl
same_scheme_self ecdsa_p256_sha256 = refl
same_scheme_self rsa_sha2_512_scheme = refl
same_scheme_self rsa_sha2_256_scheme = refl

any-mem :
    (s : SignatureScheme) (xs : List SignatureScheme) → any (same_scheme s) xs ≡ true → Memᴰ s xs
any-mem s xs h =
    let (x, m, e) =
      (any_iff (same_scheme s) (λ t. s ≡ t) xs
          (λ t. ((same_scheme-eq s t), λ e. rw (← e) (same_scheme_self s)))).0
        h in
    subst (λ y. Memᴰ y xs) (sym e) m

length-set_at :
    (i : ℕ) (s : SignatureScheme) (xs : List SignatureScheme) → length (set_at i s xs) ≡ length xs
length-set_at i s [] = refl
length-set_at zero s (x ∷ xs) = refl
length-set_at (suc i) s (x ∷ xs) = ap suc (length-set_at i s xs)

take-set_at :
    (i : ℕ) (s : SignatureScheme) (xs : List SignatureScheme)
    → i < length xs
    → take (i + 1) (set_at i s xs) ≡ take i xs ++ (s ∷ [])
take-set_at i s [] h = absurd (omega arith)
take-set_at zero s (x ∷ xs) h = refl
take-set_at (suc i) s (x ∷ xs) h =
    let n : suc i + 1 ≡ suc (i + 1) = omega arith in
    rw n (ap (◌∷◌ x) (take-set_at i s xs (omega arith)))

loop-Accepted :
    (all before rest : List SignatureScheme) (out : HostKeyAlgorithms)
    → all ≡ before ++ rest
    → as_slice out ≡ before
    → Unique before
    → out.filled ≡ length before
    → length out.schemes ≡ 4
    → 0 < length all
    → Accepted all (new_loop out rest)
unfolding new_loop
loop-Accepted all before [] out e sl u f l pos =
    let whole : before ≡ all = sym (e ∙ append-nil before) in
    listed out (sl ∙ whole) (rw (← whole) u) (omega (arith, ap length whole))
      (omega (arith, Unique-length before u)) l
loop-Accepted all before (s ∷ ss) out e sl u f l pos =
    if_elim (Accepted all) (any (same_scheme s) (as_slice out)) (err (duplicate s))
      (new_loop (push s out) ss)
      (λ t.
        refused_duplicate before s ss e u
          (any-mem s before (subst (λ x. any (same_scheme s) x ≡ true) sl t)))
      (λ g.
        let absent : any (same_scheme s) before ≡ false =
          subst (λ x. any (same_scheme s) x ≡ false) sl g in
        let u' = Unique-append s before u absent in
        let room = Unique-length (before ++ (s ∷ [])) u' in
        let grown = length-append before (s ∷ []) in
        loop-Accepted all (before ++ (s ∷ [])) ss (push s out)
          (e ∙ sym (append_assoc before (s ∷ []) ss))
          (take-set_at out.filled s out.schemes (omega arith) ∙ ap (λ t. t ++ (s ∷ [])) sl) u'
          (omega arith) (length-set_at out.filled s out.schemes ∙ l) pos)

-- `HostKeyAlgorithms::new` refuses exactly the empty list and a list with a repetition, naming the
-- first scheme that repeats an earlier one; any other list is accepted as it is, has at most
-- four schemes, and the loop stays inside the array.
pub new-Accepted : (ss : List SignatureScheme) → Accepted ss (new ss)
unfolding new count
new-Accepted [] = refused_empty refl
new-Accepted (first ∷ ss) =
    loop-Accepted (first ∷ ss) [] (first ∷ ss)
      (record { schemes = first ∷ first ∷ first ∷ first ∷ []; filled = 0 }) refl refl
      (λ s. omega arith) refl refl (omega arith)
