-- ===== src/Wire/ExtInfo/Walk.antt =====
-- crates/tatami_ssh_wire/src/ext_info.rs: the walk of `validate` and the iterator read the same pairs.
use tatami_ssh.Prelude.{
  ℕ, zero, suc, ◌+◌, ◌-◌, ◌≤◌, ◌<◌, ◌≡◌, refl, ap, ◌∙◌, arith, false, none, some, List, [], ◌∷◌,
  Result, ok, err, Outcome, done, fail, ◌==◌, length,
}
use tatami_ssh.Wire.Error.{MessageError}
use tatami_ssh.Wire.Reader.{Reader}
use tatami_ssh.Wire.Message.{finish}
use tatami_ssh.Wire.ExtInfo.{
  ExtInfo, ExtInfoError, Pair, Extensions, walk, walked, validate, read_pair, next, collect,
}

-- The pairs that stand one behind the other between two positions of the reader.
pub data Pairs : Reader → List Pair → Reader → Type 0 where
  none_left : (r : Reader) → Pairs r [] r
  one_more :
      (r u w : Reader) (p : Pair) (ps : List Pair)
      → read_pair r ≡ done p u
      → Pairs u ps w
      → Pairs r (p ∷ ps) w

walk_step-inv :
    (claimed n found : ℕ) (r w : Reader) (o : Outcome Reader MessageError Pair)
    → read_pair r ≡ o
    → walk claimed (suc n) found r ≡ ok w
    → (p : Pair) × (u : Reader) × (o ≡ done p u) × (walk claimed n (found + 1) u ≡ ok w)
unfolding walk
walk_step-inv claimed n found r w (done p u) e h = (p, u, refl, ground arith)
walk_step-inv claimed n found r w (fail x u) e h = absurd (ground arith)

pub walk-Pairs :
    (claimed n found : ℕ) (r w : Reader)
    → walk claimed n found r ≡ ok w
    → (ps : List Pair) × (length ps ≡ n) × Pairs r ps w
unfolding walk
walk-Pairs claimed zero found r w h = let same : r ≡ w = cc in ([], refl, rw same (none_left w))
walk-Pairs claimed (suc n) found r w h =
    let (p, u, e, later) = walk_step-inv claimed n found r w (read_pair r) refl h in
    let (ps, k, rest) = walk-Pairs claimed n (found + 1) u w later in
    (p ∷ ps, ap suc k, one_more r u w p ps e rest)

-- The iterator on pairs that can all be read.
next-end :
    (r : Reader)
    → next (record { r = r; remaining = 0; failed = false })
      ≡ (none, record { r = r; remaining = 0; failed = false })
unfolding next
next-end r = refl

next-pair :
    (r u : Reader) (n : ℕ) (p : Pair)
    → read_pair r ≡ done p u
    → next (record { r = r; remaining = suc n; failed = false })
      ≡ (some (ok p), record { r = u; remaining = n; failed = false })
unfolding next
next-pair r u n p e =
    let more : (suc n == 0) ≡ false = ground arith in
    let less : suc n - 1 ≡ n = omega arith in rw (more, e, less) refl

collect_step :
    (fuel : ℕ) (it later : Extensions) (p : Pair) (ps : List Pair)
    → next it ≡ (some (ok p), later)
    → collect fuel later ≡ ok ps
    → collect (suc fuel) it ≡ ok (p ∷ ps)
unfolding collect
collect_step fuel it later p ps e h =
    let k : collect fuel (next it).1 ≡ ok ps = ap (λ x. collect fuel x.1) e ∙ h in
    rw (e, k, collect) refl

pub collect-Pairs :
    (fuel : ℕ) (r w : Reader) (ps : List Pair)
    → Pairs r ps w
    → length ps < fuel
    → collect fuel (record { r = r; remaining = length ps; failed = false }) ≡ ok ps
unfolding collect next
collect-Pairs zero r w ps h lt = absurd (omega arith)
collect-Pairs (suc fuel) r w [] h lt = refl
collect-Pairs (suc fuel) r w (p ∷ ps) (one_more _ u _ _ _ e rest) lt =
    collect_step fuel (record { r = r; remaining = suc (length ps); failed = false })
      (record { r = u; remaining = length ps; failed = false }) p ps (next-pair r u (length ps) p e)
      (collect-Pairs fuel u w ps rest (omega arith))

finished-inv :
    (count n : ℕ) (w : Reader) (f : Outcome Reader MessageError (Unit {0}))
    → finish w ≡ f
    → walked count (ok w) ≡ ok n
    → (u : Reader) × (finish w ≡ done tt u) × (n ≡ count)
unfolding walked
finished-inv count n w (done _ u) e h = (u, e, ground arith)
finished-inv count n w (fail x u) e h = absurd (ground arith)

walked_err : (count n : ℕ) (x : ExtInfoError) → ¬ (walked count (err x) ≡ ok n)
unfolding walked
walked_err count n x h = cc

walked-inv :
    (count n : ℕ) (o : Result ExtInfoError Reader)
    → walked count o ≡ ok n
    → (w : Reader) × (u : Reader) × (o ≡ ok w) × (finish w ≡ done tt u) × (n ≡ count)
walked-inv count n (err x) h = absurd (walked_err count n x h)
walked-inv count n (ok w) h =
    let (u, e, k) = finished-inv count n w (finish w) refl h in (w, u, refl, e, k)

validate-inv :
    (e : ExtInfo) (max n : ℕ)
    → validate e max ≡ ok n
    → (e.count ≤ max) × (walked e.count (walk e.claimed e.count 0 e.body) ≡ ok n)
unfolding validate
validate-inv e max n h = ground arith

-- A validated message, and the pairs in it.
pub record Valid (e : ExtInfo) (max : ℕ) (ps : List Pair) : Type 0 where
  pub end : Reader
  pub after : Reader
  pub pairs : Pairs e.body ps end
  pub at_end : finish end ≡ done tt after
  pub count : length ps ≡ e.count
  pub bounded : e.count ≤ max

pub validate-Valid :
    (e : ExtInfo) (max n : ℕ)
    → validate e max ≡ ok n
    → (ps : List Pair) × Valid e max ps × (n ≡ e.count)
validate-Valid e max n h =
    let (le, h') = validate-inv e max n h in
    let (w, u, walked_to, at_end, k) = walked-inv e.count n _ h' in
    let (ps, len, pairs) = walk-Pairs e.claimed e.count 0 e.body w walked_to in
    (
      ps,
      record { end = w; after = u; pairs = pairs; at_end = at_end; count = len; bounded = le },
      k,
    )
