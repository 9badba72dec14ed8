-- ===== src/Opening/Numbers.antt =====
-- crates/tatami_ssh_connection/src/opening.rs: the holders of a channel number, and the search for
-- a number of the peer's.
use tatami_ssh.Prelude.{
  ℕ, zero, suc, ◌+◌, ◌-◌, ◌≤◌, ◌<◌, ◌≡◌, ◌≢◌, ◌^◌, arith, refl, Bool, false, ◌||◌, List, [], ◌∷◌,
  ◌++◌, length, drop, ◌==◌, if◌then◌else◌, Bool-cases, ◌⊎◌, inl, inr, length-drop,
}
use tatami_ssh.Opening.Types.{LocalNumber, PeerNumber, Slot}
use tatami_ssh.Opening.Engine.{bury}
use tatami_ssh.Opening.Peer.{holds_peer, peer_in, remove_first}
use tatami_ssh.Opening.Totals.{total}
use tatami_ssh.Opening.Slots.{occ}
use tatami_ssh.Opening.Inv.{w_peer, w_local, holders, frontier, NumbersInv}

abbrev pub one_at : ℕ → ℕ → ℕ
one_at n m = if n == m then 1 else 0

pub one_at_self : (n : ℕ) → one_at n n ≡ 1
one_at_self n = ground arith

pub one_at-cases : (n m : ℕ) → ((n ≡ m) × (one_at n m ≡ 1)) ⊎ ((n ≢ m) × (one_at n m ≡ 0))
one_at-cases n m = ground arith

-- A number that is handed out and held once from then on.
pub numbers-add :
    (next next' : ℕ) (exhausted : Bool) (slots slots' : List Slot) (tombstones : List LocalNumber)
    → NumbersInv next false slots tombstones
    → frontier next' exhausted ≡ next + 1
    → next' < 2 ^ 32
    → ((n : ℕ) → total (w_local n) slots' ≡ total (w_local n) slots + one_at next n)
    → NumbersInv next' exhausted slots' tombstones
numbers-add next next' exhausted slots slots' tombstones inv front small grow = record {
  next_u32 = small;
  unique = λ n. elim (one_at-cases next n) [
    | inl (same, one) ↦ omega (arith, grow n, inv.fresh n (omega arith))
    | inr (other, nil) ↦ omega (arith, grow n, inv.unique n)
  ];
  fresh = λ n above. elim (one_at-cases next n) [
    | inl (same, one) ↦ absurd (omega arith)
    | inr (other, nil) ↦ omega (arith, grow n, inv.fresh n (omega arith))
  ];
}

-- Where no number gains a holder, the numbers stay right.
pub numbers-le :
    (next : ℕ) (exhausted : Bool) (slots slots' : List Slot)
    (tombstones tombstones' : List LocalNumber)
    → NumbersInv next exhausted slots tombstones
    → ((n : ℕ) → holders n slots' tombstones' ≤ holders n slots tombstones)
    → NumbersInv next exhausted slots' tombstones'
numbers-le next exhausted slots slots' tombstones tombstones' inv le = record {
  next_u32 = inv.next_u32;
  unique = λ n. omega (arith, inv.unique n, le n);
  fresh = λ n above. omega (arith, inv.fresh n above, le n);
}

occ-append : (n m : ℕ) (xs : List ℕ) → occ n (xs ++ (m ∷ [])) ≡ occ n xs + one_at m n
occ-append n m [] = omega arith
occ-append n m (x ∷ xs) = let rest = occ-append n m xs in omega arith

occ-drop : (n k : ℕ) (xs : List ℕ) → occ n (drop k xs) ≤ occ n xs
occ-drop n zero xs = omega arith
occ-drop n (suc k) [] = omega arith
occ-drop n (suc k) (x ∷ xs) = let rest = occ-drop n k xs in omega arith

-- A burial adds at most the buried number, and keeps the limit.
pub occ-bury :
    (n limit m : ℕ) (tombstones : List LocalNumber)
    → occ n (bury limit m tombstones) ≤ occ n tombstones + one_at m n
occ-bury n limit m tombstones =
    let all = occ-append n m tombstones in
    let fewer = occ-drop n (length (tombstones ++ (m ∷ [])) - limit) (tombstones ++ (m ∷ [])) in
    omega arith

pub length-bury :
    (limit m : ℕ) (tombstones : List LocalNumber) → length (bury limit m tombstones) ≤ limit
length-bury limit m tombstones =
    let len = length-drop (length (tombstones ++ (m ∷ [])) - limit) (tombstones ++ (m ∷ [])) in
    omega arith

pub occ-remove_first :
    (n m : ℕ) (tombstones : List LocalNumber) → occ n (remove_first m tombstones) ≤ occ n tombstones
unfolding remove_first
occ-remove_first n m [] = omega arith
occ-remove_first n m (t ∷ ts) =
    let rest = occ-remove_first n m ts in
    elim (Bool-cases (t == m)) [ inl e ↦ rw e (omega arith) | inr e ↦ rw e (omega arith) ]

pub length-remove_first :
    (m : ℕ) (tombstones : List LocalNumber) → length (remove_first m tombstones) ≤ length tombstones
unfolding remove_first
length-remove_first m [] = omega arith
length-remove_first m (t ∷ ts) =
    let rest = length-remove_first m ts in
    elim (Bool-cases (t == m)) [ inl e ↦ rw e (omega arith) | inr e ↦ rw e (omega arith) ]

pub or-false : (a b : Bool) → (a || b) ≡ false → (a ≡ false) × (b ≡ false)
or-false a b h = ground arith

-- A number of the peer's that no slot holds.
pub peer_in-total :
    (p : PeerNumber) (slots : List Slot) → peer_in p slots ≡ false → total (w_peer p) slots ≡ 0
unfolding total peer_in
peer_in-total p [] h = refl
peer_in-total p (slot ∷ slots) h =
    let (here, rest) = or-false (holds_peer p slot.state) (peer_in p slots) h in
    let nil : w_peer p slot.state ≡ 0 = rw here refl in omega (arith, peer_in-total p slots rest)
