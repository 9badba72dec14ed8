-- ===== src/Wire/NameList/Join.antt =====
-- crates/tatami_ssh_wire/src/namelist.rs: `NameList::parse` and the iterator on names joined with commas.
use tatami_ssh.Prelude.{
  ℕ, zero, suc, ◌+◌, ◌≤◌, ◌<◌, ◌≡◌, ◌≢◌, refl, ap, ◌∙◌, arith, true, Option, none, some, List, [],
  ◌∷◌, ◌++◌, Bytes, ok, length, All, length-append, append-nil,
}
use tatami_ssh.Wire.NameList.{
  all_name_bytes, is_valid_name, parse_from, parse, split_comma, collect, iter, names,
}

abbrev pub IsName : Bytes → Type 0
IsName n = is_valid_name n ≡ true

-- The bytes of a list of names: the names with commas between them.
unfoldable pub join : List Bytes → Bytes
join [] = []
join (n ∷ []) = n
join (n ∷ m ∷ ns) = n ++ (b',' ∷ join (m ∷ ns))

-- No comma in a name.
all_name_bytes-split :
    (n : Bytes)
    → all_name_bytes n ≡ true
    → (split_comma n ≡ (n, none))
      × ((rest : Bytes) → split_comma (n ++ (b',' ∷ rest)) ≡ (n, some rest))
unfolding all_name_bytes split_comma
all_name_bytes-split [] h = (refl, λ rest. refl)
all_name_bytes-split (b ∷ bs) h =
    let ih = all_name_bytes-split bs (ground arith) in
    (ground arith, λ rest. ground (arith, ih.1 rest))

pub collect-none : (fuel : ℕ) → collect fuel none ≡ []
unfolding collect
collect-none zero = refl
collect-none (suc fuel) = refl

valid-all : (n : Bytes) → IsName n → (all_name_bytes n ≡ true) × (1 ≤ length n)
unfolding is_valid_name
valid-all [] h = cc
valid-all (b ∷ bs) h = (h, omega arith)

pub collect_step :
    (fuel : ℕ) (bs name : Bytes) (after : Option Bytes)
    → split_comma bs ≡ (name, after)
    → collect (suc fuel) (some bs) ≡ name ∷ collect fuel after
unfolding collect
collect_step fuel bs name after e = rw e

collect-join :
    (n : Bytes) (ns : List Bytes) (fuel : ℕ)
    → All IsName (n ∷ ns)
    → length (join (n ∷ ns)) ≤ fuel
    → collect (suc fuel) (some (join (n ∷ ns))) ≡ n ∷ ns
unfolding join
collect-join n [] fuel h le =
    collect_step fuel n n none (all_name_bytes-split n (valid-all n h.0).0).0
    ∙ ap (◌∷◌ n) (collect-none fuel)
collect-join n (m ∷ ns) zero h le = absurd (omega (arith, length-append n (b',' ∷ join (m ∷ ns))))
collect-join n (m ∷ ns) (suc fuel) h le =
    let rest = join (m ∷ ns) in
    collect_step (suc fuel) (n ++ (b',' ∷ rest)) n (some rest)
      ((all_name_bytes-split n (valid-all n h.0).0).1 rest)
    ∙ ap (◌∷◌ n) (collect-join m ns fuel h.1 (omega (arith, length-append n (b',' ∷ rest))))

parse_from-name :
    (n : Bytes) (o s : ℕ) (rest : Bytes)
    → all_name_bytes n ≡ true
    → parse_from o s (n ++ rest) ≡ parse_from (o + length n) s rest
unfolding parse_from all_name_bytes
parse_from-name [] o s rest h = let e : o ≡ o + 0 = omega arith in ap (λ k. parse_from k s rest) e
parse_from-name (b ∷ bs) o s rest h =
    let e : o + 1 + length bs ≡ o + suc (length bs) = omega arith in
    ground (arith, parse_from-name bs (o + 1) s rest, ap (λ k. parse_from k s rest) e)

parse_from-comma :
    (o s : ℕ) (rest : Bytes)
    → o ≢ s
    → parse_from o s (b',' ∷ rest) ≡ parse_from (o + 1) (o + 1) rest
unfolding parse_from
parse_from-comma o s rest h = ground arith

-- The loop goes through, and the last name starts before the end.
parse_from-join :
    (n : Bytes) (ns : List Bytes) (o : ℕ)
    → All IsName (n ∷ ns)
    → (k : ℕ) × (parse_from o o (join (n ∷ ns)) ≡ ok k) × (k < o + length (join (n ∷ ns)))
unfolding join parse_from
parse_from-join n [] o h = (
  o,
  rw (← append-nil n) (parse_from-name n o o [] (valid-all n h.0).0),
  omega (arith, valid-all n h.0),
)
parse_from-join n (m ∷ ns) o h =
    let (k, e, lt) = parse_from-join m ns (o + length n + 1) h.1 in
    (
      k,
      parse_from-name n o o (b',' ∷ join (m ∷ ns)) (valid-all n h.0).0
          ∙ parse_from-comma (o + length n) o (join (m ∷ ns)) (omega (arith, valid-all n h.0))
          ∙ e,
      omega (arith, length-append n (b',' ∷ join (m ∷ ns))),
    )

parse-of_loop :
    (bs : Bytes) (k : ℕ)
    → parse_from 0 0 bs ≡ ok k
    → k < length bs
    → parse bs ≡ ok (record { body = bs })
unfolding parse
parse-of_loop [] k e lt = refl
parse-of_loop (b ∷ bs) k e lt = rw e (ground arith)

iter_nonempty : (bs : Bytes) → 0 < length bs → iter (record { body = bs }) ≡ some bs
unfolding iter
iter_nonempty [] h = absurd (omega arith)
iter_nonempty (b ∷ bs) h = refl

join_nonempty : (n : Bytes) (ns : List Bytes) → All IsName (n ∷ ns) → 0 < length (join (n ∷ ns))
join_nonempty n ns h = let (k, e, lt) = parse_from-join n ns 0 h in omega arith

pub names-join : (ns : List Bytes) → All IsName ns → names (record { body = join ns }) ≡ ns
unfolding names
names-join [] h = unfold join collect in refl
names-join (n ∷ ns) h =
    rw (iter_nonempty _ (join_nonempty n ns h)) (collect-join n ns _ h (omega arith))

pub parse-join :
    (ns : List Bytes) → All IsName ns → parse (join ns) ≡ ok (record { body = join ns })
parse-join [] h = unfold parse join in refl
parse-join (n ∷ ns) h =
    let (k, e, lt) = parse_from-join n ns 0 h in parse-of_loop (join (n ∷ ns)) k e (omega arith)

-- Well-formed names joined with commas parse, and the parsed list iterates over the same names.
pub names-parse-join :
    (ns : List Bytes)
    → All IsName ns
    → (parse (join ns) ≡ ok (record { body = join ns })) × (names (record { body = join ns }) ≡ ns)
names-parse-join ns h = (parse-join ns h, names-join ns h)
