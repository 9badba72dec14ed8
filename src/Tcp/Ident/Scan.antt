-- ===== src/Tcp/Ident/Scan.antt =====
-- crates/tatami_ssh_tcp/src/ident.rs: the line that `find_line` finds, and the prefix.
use tatami_ssh.Prelude.{
  ℕ, zero, suc, ◌+◌, ◌-◌, ◌≤◌, ◌<◌, ◌≡◌, ◌≢◌, refl, sym, ap, ◌∙◌, arith, true, false, Option, none,
  some, [], ◌∷◌, ◌++◌, Bytes, ltb, ◌&&◌, length, take, drop, append_assoc, inl, inr, if_elim,
  &&_inv, bytes_eq, bytes_eq_iff, length-take_le, ◌↔◌, subst, ltb→lt, Bool-cases, ltb→le, leb,
}
use tatami_ssh.Tcp.Ident.{
  LineTerminator, cr_lf, lf, byte_len, ends_cr, starts_identification, terminator_at, find_line,
}
use tatami_ssh.Wire.Ident.{prefix, position}
use tatami_ssh.Wire.Ident.Fields.{position_cons-inv}

abbrev pub terminator_bytes : LineTerminator → Bytes
terminator_bytes cr_lf = 13 ∷ 10 ∷ []
terminator_bytes lf = 10 ∷ []

-- The first line of the buffer, with its terminator, is the first `consumed` bytes.
pub record IsLine (buf line : Bytes) (t : LineTerminator) (consumed : ℕ) : Type 0 where
  pub stands : take consumed buf ≡ line ++ terminator_bytes t
  pub single : position 10 line ≡ none
  pub size : consumed ≡ length line + byte_len t
  pub inside : consumed ≤ length buf

position_bound : (x : ℕ) (bs : Bytes) (i : ℕ) → position x bs ≡ some i → i < length bs
unfolding position
position_bound x [] i h = absurd cc
position_bound x (b ∷ bs) i h = elim (position_cons-inv x b bs i (position x bs) refl h) [
  | inl (same, at) ↦ omega arith
  | inr (j, e, at) ↦ let ih = position_bound x bs j e in omega arith
]

take-position :
    (x : ℕ) (bs : Bytes) (i : ℕ) → position x bs ≡ some i → take (i + 1) bs ≡ take i bs ++ (x ∷ [])
unfolding position
take-position x [] i h = absurd cc
take-position x (b ∷ bs) i h = elim (position_cons-inv x b bs i (position x bs) refl h) [
  | inl (same, at) ↦ rw (at, same) refl
  | inr (j, e, at) ↦
      let next : suc j + 1 ≡ suc (j + 1) = omega arith in
      rw (at, next) (ap (◌∷◌ b) (take-position x bs j e))
]

position-take :
    (x : ℕ) (bs : Bytes) (i n : ℕ) → position x bs ≡ some i → n ≤ i → position x (take n bs) ≡ none
unfolding position
position-take x bs i zero h le = refl
position-take x [] i (suc n) h le = refl
position-take x (b ∷ bs) i (suc n) h le = elim (position_cons-inv x b bs i (position x bs) refl h) [
  | inl (same, at) ↦ absurd (omega arith)
  | inr (j, e, at) ↦ let ih = position-take x bs j n e (omega arith) in ground arith
]

take-ends_cr :
    (i : ℕ) (bs : Bytes)
    → ends_cr (take 1 (drop i bs)) ≡ true
    → take (i + 1) bs ≡ take i bs ++ (13 ∷ [])
take-ends_cr zero [] h = absurd cc
take-ends_cr zero (b ∷ bs) h = let same : b ≡ 13 = ground arith in ap (λ k. k ∷ []) same
take-ends_cr (suc i) [] h = absurd cc
take-ends_cr (suc i) (b ∷ bs) h =
    let next : suc i + 1 ≡ suc (i + 1) = omega arith in rw next (ap (◌∷◌ b) (take-ends_cr i bs h))

-- The two ways in which a line ends.
terminator_at-IsLine :
    (buf : Bytes) (at : ℕ)
    → position 10 buf ≡ some at
    → IsLine buf
        (take ((terminator_at at buf).0) buf)
        ((terminator_at at buf).1)
        ((terminator_at at buf).0 + byte_len ((terminator_at at buf).1))
unfolding terminator_at byte_len
terminator_at-IsLine buf at h =
    if_elim (λ (q : ℕ × LineTerminator). IsLine buf (take (q.0) buf) (q.1) (q.0 + byte_len (q.1)))
      (ltb 0 at && ends_cr (take 1 (drop (at - 1) buf))) (at - 1, cr_lf) (at, lf)
      (λ c.
        let (pos, cr) = &&_inv (ltb 0 at) (ends_cr (take 1 (drop (at - 1) buf))) c in
        let inside = position_bound 10 buf at h in
        let some_before = ltb→lt 0 at pos in
        let back : at - 1 + 1 ≡ at = omega arith in
        let all : at - 1 + 2 ≡ at + 1 = omega arith in
        record {
          stands =
              ap (λ k. take k buf) all
              ∙ take-position 10 buf at h
              ∙ ap (λ k. take k buf ++ (10 ∷ [])) (sym back)
              ∙ ap (λ k. k ++ (10 ∷ [])) (take-ends_cr (at - 1) buf cr)
              ∙ append_assoc (take (at - 1) buf) (13 ∷ []) (10 ∷ []);
          single = position-take 10 buf at (at - 1) h (omega arith);
          size = omega (arith, length-take_le (at - 1) buf (omega arith));
          inside = omega arith;
        })
      (λ c.
        let inside = position_bound 10 buf at h in
        record {
          stands = take-position 10 buf at h;
          single = position-take 10 buf at at h (omega arith);
          size = omega (arith, length-take_le at buf (omega arith));
          inside = omega arith;
        })

length-take_all : (n : ℕ) (bs : Bytes) → length bs ≤ n → length (take n bs) ≡ length bs
length-take_all zero [] h = refl
length-take_all zero (b ∷ bs) h = absurd (omega arith)
length-take_all (suc n) [] h = refl
length-take_all (suc n) (b ∷ bs) h = ap suc (length-take_all n bs (omega arith))

pub find_line-IsLine :
    (buf : Bytes) (o : Option ℕ) (n : ℕ) (t : LineTerminator)
    → position 10 buf ≡ o
    → find_line buf ≡ some (n, t)
    → IsLine buf (take n buf) t (n + byte_len t)
unfolding find_line
find_line-IsLine buf none n t e h =
    let found : find_line buf ≡ none = rw (e, find_line) refl in absurd cc
find_line-IsLine buf (some at) n t e h =
    let found : find_line buf ≡ some (terminator_at at buf) = rw (e, find_line) refl in
    let same : terminator_at at buf ≡ (n, t) = cc in
    subst (λ q. IsLine buf (take (q.0) buf) (q.1) (q.0 + byte_len (q.1))) same
      (terminator_at-IsLine buf at e)

pub find_line-none :
    (buf : Bytes) (o : Option ℕ) → position 10 buf ≡ o → find_line buf ≡ none → o ≡ none
unfolding find_line
find_line-none buf none e h = refl
find_line-none buf (some at) e h =
    let found : find_line buf ≡ some (terminator_at at buf) = rw (e, find_line) refl in absurd cc

starts_identification-long :
    (buf : Bytes) → 4 ≤ length buf → starts_identification buf ≡ some (bytes_eq (take 4 buf) prefix)
unfolding starts_identification
starts_identification-long buf h = ground arith

starts_identification-short : (buf : Bytes) → length buf < 4 → starts_identification buf ≢ some true
unfolding starts_identification
starts_identification-short buf h =
    if_elim (λ o. o ≢ some true) (leb 4 (length buf)) _ _ (λ t. absurd (ground arith))
      (λ f.
        if_elim (λ o. o ≢ some true) (bytes_eq buf (take (length buf) prefix)) none (some false)
          (λ _ e. absurd cc) (λ _ e. absurd cc))

pub starts_identification_iff :
    (buf : Bytes) → (starts_identification buf ≡ some true) ↔ (take 4 buf ≡ prefix)
starts_identification_iff buf =
    let same = bytes_eq_iff (take 4 buf) prefix in
    elim (Bool-cases (ltb (length buf) 4)) [
      | inl t ↦
          let short = starts_identification-short buf (ltb→lt (length buf) 4 t) in
          let cut = length-take_all 4 buf (omega (arith, ltb→lt (length buf) 4 t)) in
          (
            (λ e. absurd (short e)),
            λ e. absurd (omega (arith, ltb→lt (length buf) 4 t, cut, ap length e)),
          )
      | inr f ↦
          let long = starts_identification-long buf (ltb→le (length buf) 4 f) in
          ((λ e. same.0 (ground arith)), λ e. long ∙ ap some (same.1 e))
    ]
