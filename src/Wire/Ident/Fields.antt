-- ===== src/Wire/Ident/Fields.antt =====
-- crates/tatami_ssh_wire/src/ident.rs: which contents parse, and to which fields.
use tatami_ssh.Prelude.{
  ℕ, suc, ◌+◌, ◌≡◌, refl, sym, ap, ◌∙◌, subst, arith, true, false, Option, none, some, [], ◌∷◌,
  ◌++◌, Bytes, ok, ◌==◌, length, take, drop, any, bytes_eq, bytes_eq_iff, &&_inv, take-append,
  take-append-drop, append-nil, ◌⊎◌, inl, Bool-cases, inr,
}
use tatami_ssh.Wire.Ident.{
  Identification, prefix, is_forbidden_byte, is_token_byte, all_token_bytes, is_version_token,
  strip_prefix, position, split_space, parse_software, parse_rest, parse_content, parse,
}

abbrev pub IsToken : Bytes → Type 0
IsToken t = is_version_token t ≡ true

abbrev pub tail_wire : Option Bytes → Bytes
tail_wire none = []
tail_wire (some c) = b' ' ∷ c

-- `SSH-protoversion-softwareversion [SP comments]`.
abbrev pub ident_wire : Bytes → Bytes → Option Bytes → Bytes
ident_wire protocol software comments =
    prefix ++ (protocol ++ (b'-' ∷ (software ++ tail_wire comments)))

pub position_cons-inv :
    (x b : ℕ) (bs : Bytes) (i : ℕ) (o : Option ℕ)
    → position x bs ≡ o
    → position x (b ∷ bs) ≡ some i
    → ((b ≡ x) × (i ≡ 0)) ⊎ ((j : ℕ) × (position x bs ≡ some j) × (i ≡ suc j))
unfolding position
position_cons-inv x b bs i o e h = elim (Bool-cases (b == x)) [
  | inl t ↦ inl (ground arith)
  | inr f ↦ inr (later o e f)
]
  where
    later :
        (o : Option ℕ)
        → position x bs ≡ o
        → (b == x) ≡ false
        → (j : ℕ) × (position x bs ≡ some j) × (i ≡ suc j)
    later none e f = absurd (ground arith)
    later (some j) e f = (j, e, ground arith)

position-inv :
    (x : ℕ) (bs : Bytes) (i : ℕ) → position x bs ≡ some i → bs ≡ take i bs ++ (x ∷ drop (i + 1) bs)
unfolding position
position-inv x [] i h = absurd cc
position-inv x (b ∷ bs) i h = elim (position_cons-inv x b bs i (position x bs) refl h) [
  | inl (same, at) ↦ rw (at, same) refl
  | inr (j, e, at) ↦
      let next : suc j + 1 ≡ suc (j + 1) = omega arith in
      rw (at, next) (ap (◌∷◌ b) (position-inv x bs j e))
]

token-space : (t : Bytes) → all_token_bytes t ≡ true → position b' ' t ≡ none
unfolding position all_token_bytes is_token_byte
token-space [] h = refl
token-space (b ∷ bs) h =
    let (a, r) = &&_inv (is_token_byte b) (all_token_bytes bs) h in
    let ih = token-space bs r in ground arith

token-stop :
    (x : ℕ) (t rest : Bytes)
    → (x ≡ b'-') ⊎ (x ≡ b' ')
    → all_token_bytes t ≡ true
    → position x (t ++ (x ∷ rest)) ≡ some (length t)
unfolding position all_token_bytes is_token_byte
token-stop x [] rest d h = ground arith
token-stop x (b ∷ bs) rest d h =
    let (a, r) = &&_inv (is_token_byte b) (all_token_bytes bs) h in
    let ih = token-stop x bs rest d r in
    let ne : (b == x) ≡ false = ground arith in rw (ne, ih) refl

pub token-all : (t : Bytes) → IsToken t → all_token_bytes t ≡ true
unfolding is_version_token
token-all [] h = absurd cc
token-all (b ∷ bs) h = h

pub drop-past : (x : ℕ) (xs ys : Bytes) → drop (length xs + 1) (xs ++ (x ∷ ys)) ≡ ys
drop-past x [] ys = refl
drop-past x (b ∷ bs) ys =
    let next : suc (length bs) + 1 ≡ suc (length bs + 1) = omega arith in
    rw next (drop-past x bs ys)

split_space-wire :
    (s : Bytes) (c : Option Bytes) → IsToken s → split_space (s ++ tail_wire c) ≡ (s, c)
unfolding split_space
split_space-wire s none h =
    ap split_space (append-nil s) ∙ rw (token-space s (token-all s h), split_space) refl
split_space-wire s (some c) h =
    rw
      (
        token-stop b' ' s c (inr refl) (token-all s h),
        take-append s (b' ' ∷ c),
        drop-past b' ' s c,
        split_space,
      )
      refl

strip_prefix-prefix : (rest : Bytes) → strip_prefix (prefix ++ rest) ≡ some rest
unfolding strip_prefix bytes_eq
strip_prefix-prefix rest = refl

parse_software-ok :
    (input p s : Bytes) (c : Option Bytes)
    → IsToken s
    → parse_software input p (s, c)
      ≡ ok (record { input = input; protocol_version = p; software_version = s; comments = c })
unfolding parse_software
parse_software-ok input p s c h = ground arith

parse_rest-wire :
    (input p s : Bytes) (c : Option Bytes)
    → IsToken p
    → IsToken s
    → parse_rest input
        (p ++ (b'-' ∷ (s ++ tail_wire c)))
        (position b'-' (p ++ (b'-' ∷ (s ++ tail_wire c))))
      ≡ ok (record { input = input; protocol_version = p; software_version = s; comments = c })
unfolding parse_rest
parse_rest-wire input p s c hp hs =
    let after = s ++ tail_wire c in
    rw
      (
        token-stop b'-' p after (inl refl) (token-all p hp),
        take-append p (b'-' ∷ after),
        hp,
        drop-past b'-' p after,
        split_space-wire s c hs,
      )
      (parse_software-ok input p s c hs)

-- The content with its three fields in it.
pub record IsContent (protocol software : Bytes) (comments : Option Bytes) : Type 0 where
  pub protocol_token : IsToken protocol
  pub software_token : IsToken software
  pub clean : any is_forbidden_byte (ident_wire protocol software comments) ≡ false

pub parse-ident_wire :
    (protocol software : Bytes) (comments : Option Bytes)
    → IsContent protocol software comments
    → parse (ident_wire protocol software comments)
      ≡ ok (record {
        input = ident_wire protocol software comments;
        protocol_version = protocol;
        software_version = software;
        comments = comments;
      })
unfolding parse parse_content
parse-ident_wire p s c h =
    rw (h.clean, parse, strip_prefix-prefix (p ++ (b'-' ∷ (s ++ tail_wire c))))
      (parse_rest-wire (ident_wire p s c) p s c h.protocol_token h.software_token)

strip_prefix-inv : (input rest : Bytes) → strip_prefix input ≡ some rest → prefix ++ rest ≡ input
unfolding strip_prefix
strip_prefix-inv input rest h = elim (Bool-cases (bytes_eq (take (length prefix) input) prefix)) [
  | inl t ↦
      let same = (bytes_eq_iff (take (length prefix) input) prefix).0 t in
      let behind : drop (length prefix) input ≡ rest = ground arith in
      ap (◌++◌ prefix) (sym behind)
      ∙ ap (λ k. k ++ drop (length prefix) input) (sym same)
      ∙ take-append-drop (length prefix) input
  | inr f ↦ absurd (ground arith)
]

split_space-parts :
    (after : Bytes) (o : Option ℕ)
    → position b' ' after ≡ o
    → (split_space after).0 ++ tail_wire ((split_space after).1) ≡ after
unfolding split_space
split_space-parts after none e = rw (e, split_space) (append-nil after)
split_space-parts after (some sp) e = rw (e, split_space) (sym (position-inv b' ' after sp e))

parse_software-inv :
    (input p : Bytes) (q : Bytes × Option Bytes) (id : Identification)
    → parse_software input p q ≡ ok id
    → IsToken q.0
      × (record { input = input; protocol_version = p; software_version = q.0; comments = q.1 }
          ≡ id)
unfolding parse_software
parse_software-inv input p (s, c) id h = ground arith

parse_rest-inv :
    (input rest : Bytes) (o : Option ℕ) (id : Identification)
    → parse_rest input rest o ≡ ok id
    → (dash : ℕ) × (o ≡ some dash)
      × IsToken (take dash rest)
      × (parse_software input (take dash rest) (split_space (drop (dash + 1) rest)) ≡ ok id)
unfolding parse_rest
parse_rest-inv input rest none id h = absurd cc
parse_rest-inv input rest (some dash) id h = (dash, refl, ground arith, ground arith)

parse_content-inv :
    (input : Bytes) (o : Option Bytes) (id : Identification)
    → parse_content input o ≡ ok id
    → (rest : Bytes) × (o ≡ some rest) × (parse_rest input rest (position b'-' rest) ≡ ok id)
unfolding parse_content
parse_content-inv input none id h = absurd cc
parse_content-inv input (some rest) id h = (rest, refl, h)

parse-inv :
    (input : Bytes) (id : Identification)
    → parse input ≡ ok id
    → (any is_forbidden_byte input ≡ false) × (parse_content input (strip_prefix input) ≡ ok id)
unfolding parse
parse-inv input id h = ground arith

-- Which contents parse: a parsed content is `SSH-`, the protocol version, a dash, the software
-- version and, behind a space, the comments; both versions are tokens and no byte is a control
-- character that ends a line.
pub parse-IsContent :
    (input : Bytes) (id : Identification)
    → parse input ≡ ok id
    → IsContent id.protocol_version id.software_version id.comments
      × (id.input ≡ input)
      × (ident_wire id.protocol_version id.software_version id.comments ≡ input)
unfolding parse
parse-IsContent input id h =
    let (clear, content) = parse-inv input id h in
    let (rest, stripped, tail) = parse_content-inv input (strip_prefix input) id content in
    let (dash, at, protocol, software) = parse_rest-inv input rest (position b'-' rest) id tail in
    let after = drop (dash + 1) rest in
    let (token, same) = parse_software-inv input (take dash rest) (split_space after) id software in
    let back =
      ap (λ k. prefix ++ (take dash rest ++ (b'-' ∷ k)))
        (split_space-parts after (position b' ' after) refl)
      ∙ ap (◌++◌ prefix) (sym (position-inv b'-' rest dash at))
      ∙ strip_prefix-inv input rest stripped in
    subst
      (λ id.
        IsContent id.protocol_version id.software_version id.comments
        × (id.input ≡ input)
        × (ident_wire id.protocol_version id.software_version id.comments ≡ input))
      same
      (
        record {
          protocol_token = protocol;
          software_token = token;
          clean = ap (any is_forbidden_byte) back ∙ clear;
        },
        refl,
        back,
      )
