-- ===== src/Wire/ExtInfo/Iterate.antt =====
-- crates/tatami_ssh_wire/src/ext_info.rs: the iterator ends, whatever the payload.
use tatami_ssh.Prelude.{
  ℕ, zero, suc, ◌≤◌, ◌<◌, ◌≡◌, ◌⊎◌, inl, inr, refl, ap, ◌∙◌, arith, none, some, Outcome, done, fail,
  if◌then◌else◌,
}
use tatami_ssh.Wire.Error.{MessageError}
use tatami_ssh.Wire.Reader.{Reader}
use tatami_ssh.Wire.ExtInfo.{Pair, Extensions, read_pair, next, size_hint}

-- The iterator after so many calls of `next`.
pub after : ℕ → Extensions → Extensions
after zero it = it
after (suc k) it = after k (next it).1

-- The upper bound of `size_hint`.
upper : Extensions → ℕ
upper it = if it.failed then 0 else it.remaining

upper-size_hint : (it : Extensions) (n : ℕ) → size_hint it ≡ (0, some n) → upper it ≡ n
unfolding size_hint upper
upper-size_hint it n h = ground arith

-- A call of `next` returns nothing and keeps the iterator, or lowers the bound.
next-upper_at :
    (it : Extensions) (o : Outcome Reader MessageError Pair)
    → read_pair it.r ≡ o
    → (((next it).0 ≡ none) × ((next it).1 ≡ it)) ⊎ (upper (next it).1 < upper it)
unfolding next upper
next-upper_at it (done p u) e = ground arith
next-upper_at it (fail x u) e = ground arith

stays :
    (k : ℕ) (it : Extensions) → (next it).0 ≡ none → (next it).1 ≡ it → (next (after k it)).0 ≡ none
unfolding after
stays zero it e same = e
stays (suc k) it e same = ap (λ x. (next (after k x)).0) same ∙ stays k it e same

exhausted : (k : ℕ) (it : Extensions) → upper it ≤ k → (next (after k it)).0 ≡ none
unfolding after
exhausted zero it h = elim (next-upper_at it (read_pair it.r) refl) [
  | inl (e, _) ↦ e
  | inr lt ↦ absurd (omega arith)
]
exhausted (suc k) it h = elim (next-upper_at it (read_pair it.r) refl) [
  | inl (e, same) ↦ stays (suc k) it e same
  | inr lt ↦ exhausted k (next it).1 (omega arith)
]

-- Where `size_hint` gives the upper bound `n`, the iterator returns nothing after `n` calls of `next` and
-- from then on, on every payload.
pub next-exhausted :
    (it : Extensions) (n k : ℕ) → size_hint it ≡ (0, some n) → n ≤ k → (next (after k it)).0 ≡ none
next-exhausted it n k h le = exhausted k it (omega (arith, upper-size_hint it n h))
