-- ===== src/Wire/NameList/Pieces.antt =====
-- crates/tatami_ssh_wire/src/namelist.rs: which bodies `NameList::parse` accepts.
use tatami_ssh.Prelude.{
  ℕ, ◌+◌, ◌<◌, ◌≡◌, ◌≢◌, refl, sym, ap, ◌∙◌, arith, true, false, List, [], ◌∷◌, Bytes, Result, ok,
  err, ◌==◌, if◌then◌else◌, length, All, length-append, Bool-cases, ==_iff, inl, inr,
}
use tatami_ssh.Wire.Error.{InvalidEncoding}
use tatami_ssh.Wire.NameList.{
  NameList, is_name_byte, all_name_bytes, is_valid_name, parse_from, parse_end, parse, collect,
  iter, names,
}
use tatami_ssh.Wire.NameList.Join.{IsName, join, names-join}

-- The comma-separated pieces of a byte string, each as it is; there is at least one.
pieces : Bytes → Bytes × List Bytes
pieces [] = ([], [])
pieces (b ∷ bs) = let (n, ns) = pieces bs in if b == b',' then ([], n ∷ ns) else (b ∷ n, ns)

join-cons : (b : ℕ) (n : Bytes) (ns : List Bytes) → join ((b ∷ n) ∷ ns) ≡ b ∷ join (n ∷ ns)
unfolding join
join-cons b n [] = refl
join-cons b n (m ∷ ns) = refl

-- How the pieces grow by one byte in front.
pieces-comma :
    (b : ℕ) (bs : Bytes)
    → (b == b',') ≡ true
    → pieces (b ∷ bs) ≡ ([], (pieces bs).0 ∷ (pieces bs).1)
unfolding pieces
pieces-comma b bs e = rw e

pieces-other :
    (b : ℕ) (bs : Bytes)
    → (b == b',') ≡ false
    → pieces (b ∷ bs) ≡ (b ∷ (pieces bs).0, (pieces bs).1)
unfolding pieces
pieces-other b bs e = rw e

join_empty : (n : Bytes) (ns : List Bytes) → join ([] ∷ n ∷ ns) ≡ b',' ∷ join (n ∷ ns)
unfolding join
join_empty n ns = refl

join-pieces : (bs : Bytes) → join ((pieces bs).0 ∷ (pieces bs).1) ≡ bs
join-pieces [] = unfold join pieces in refl
join-pieces (b ∷ bs) = elim (Bool-cases (b == b',')) [
  | inl e ↦
      let same : b ≡ b',' = (==_iff b b',').0 e in
      rw (pieces-comma b bs e) (rw same (join_empty _ _ ∙ ap (◌∷◌ b',') (join-pieces bs)))
  | inr e ↦ rw (pieces-other b bs e) (join-cons b _ _ ∙ ap (◌∷◌ b) (join-pieces bs))
]

-- What the loop of `parse` has checked when it returns `k` from offset `o` with `name_start = s`.
abbrev Checked : ℕ → ℕ → ℕ → Bytes → List Bytes → Type 0
Checked o s k n [] = (all_name_bytes n ≡ true) × (k ≡ s)
Checked o s k n (m ∷ ms) =
    (all_name_bytes n ≡ true)
    × (s ≢ o + length n)
    × Checked (o + length n + 1) (o + length n + 1) k m ms

Checked-cons :
    (b o s k : ℕ) (n : Bytes) (ns : List Bytes)
    → is_name_byte b ≡ true
    → Checked (o + 1) s k n ns
    → Checked o s k (b ∷ n) ns
unfolding all_name_bytes
Checked-cons b o s k n [] h c = (ground arith, c.1)
Checked-cons b o s k n (m ∷ ms) h c =
    let e : o + 1 + length n + 1 ≡ o + length (b ∷ n) + 1 = omega arith in
    (ground arith, omega arith, rw (← e) c.2)

Checked-empty :
    (o s k : ℕ) (n : Bytes) (ns : List Bytes)
    → s ≢ o
    → Checked (o + 1) (o + 1) k n ns
    → Checked o s k [] (n ∷ ns)
unfolding all_name_bytes
Checked-empty o s k n ns h c =
    let e : o + 0 + 1 ≡ o + 1 = omega arith in (refl, omega arith, rw e c)

parse_from_comma-inv :
    (b : ℕ) (bs : Bytes) (o s k : ℕ)
    → (b == b',') ≡ true
    → parse_from o s (b ∷ bs) ≡ ok k
    → (s ≢ o) × (parse_from (o + 1) (o + 1) bs ≡ ok k)
unfolding parse_from
parse_from_comma-inv b bs o s k e h = ground arith

parse_from_other-inv :
    (b : ℕ) (bs : Bytes) (o s k : ℕ)
    → (b == b',') ≡ false
    → parse_from o s (b ∷ bs) ≡ ok k
    → (is_name_byte b ≡ true) × (parse_from (o + 1) s bs ≡ ok k)
unfolding parse_from
parse_from_other-inv b bs o s k e h = ground arith

parse_from-Checked :
    (bs : Bytes) (o s k : ℕ) → parse_from o s bs ≡ ok k → Checked o s k (pieces bs).0 (pieces bs).1
parse_from-Checked [] o s k h = unfold pieces all_name_bytes parse_from in (refl, ground arith)
parse_from-Checked (b ∷ bs) o s k h = elim (Bool-cases (b == b',')) [
  | inl e ↦
      let (ne, rest) = parse_from_comma-inv b bs o s k e h in
      rw (pieces-comma b bs e)
        (Checked-empty o s k _ _ ne (parse_from-Checked bs (o + 1) (o + 1) k rest))
  | inr e ↦
      let (name, rest) = parse_from_other-inv b bs o s k e h in
      rw (pieces-other b bs e)
        (Checked-cons b o s k _ _ name (parse_from-Checked bs (o + 1) s k rest))
]

IsName-of_bytes : (n : Bytes) → all_name_bytes n ≡ true → 0 < length n → IsName n
unfolding is_valid_name
IsName-of_bytes [] h lt = absurd (omega arith)
IsName-of_bytes (b ∷ bs) h lt = h

Checked-names :
    (n : Bytes) (ns : List Bytes) (o k : ℕ)
    → Checked o o k n ns
    → k ≢ o + length (join (n ∷ ns))
    → All IsName (n ∷ ns)
unfolding join
Checked-names n [] o k c ne = (IsName-of_bytes n c.0 (omega arith), tt)
Checked-names n (m ∷ ms) o k c ne = (
  IsName-of_bytes n c.0 (omega arith),
  Checked-names m ms (o + length n + 1) k c.2
      (omega (arith, length-append n (b',' ∷ join (m ∷ ms)))),
)

parse-inv :
    (b : ℕ) (bs : Bytes) (l : NameList)
    → parse (b ∷ bs) ≡ ok l
    → (k : ℕ) × (parse_from 0 0 (b ∷ bs) ≡ ok k) × (k ≢ length (b ∷ bs)) × (l.body ≡ b ∷ bs)
unfolding parse
parse-inv b bs l h = end (parse_from 0 0 (b ∷ bs)) h
  where
    end :
        (r : Result InvalidEncoding ℕ)
        → parse_end (b ∷ bs) r ≡ ok l
        → (k : ℕ) × (r ≡ ok k) × (k ≢ length (b ∷ bs)) × (l.body ≡ b ∷ bs)
    end (ok k) h = (k, refl, ground arith, ground arith)
    end (err e) h = cc

-- A name list that `parse` accepts has the given body, and the iterator yields valid names whose
-- comma-separated concatenation is that body.
pub parse_sound :
    (body : Bytes) (l : NameList)
    → parse body ≡ ok l
    → (l.body ≡ body) × All IsName (names l) × (join (names l) ≡ body)
parse_sound [] l h = nil
  where
    empty : l ≡ record { body = [] }
    empty = unfold parse in cc

    nil : (l.body ≡ []) × All IsName (names l) × (join (names l) ≡ [])
    nil = rw empty (unfold names collect iter join in (refl, tt, refl))
parse_sound (b ∷ bs) l h =
    let (k, e, ne, eb) = parse-inv b bs l h in
    let split = join-pieces (b ∷ bs) in
    let good =
      Checked-names (pieces (b ∷ bs)).0 (pieces (b ∷ bs)).1 0 k
        (parse_from-Checked (b ∷ bs) 0 0 k e) (omega (arith, ap length split)) in
    let same : names l ≡ (pieces (b ∷ bs)).0 ∷ (pieces (b ∷ bs)).1 =
      ap names (λ i. record { body = (eb ∙ sym split) i }) ∙ names-join _ good in
    (eb, rw same good, rw same split)
