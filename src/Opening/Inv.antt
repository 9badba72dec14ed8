-- ===== src/Opening/Inv.antt =====
-- crates/tatami_ssh_connection/src/opening.rs: the invariant of the engine.
use tatami_ssh.Prelude.{
  ℕ, ◌+◌, ◌≤◌, ◌<◌, ◌≡◌, ◌^◌, arith, refl, Bool, none, some, List, length, ◌==◌, if◌then◌else◌,
}
use tatami_ssh.Opening.Types.{LocalNumber, PeerNumber, OpeningLimits, State, Slot, OpeningEngine}
use tatami_ssh.Opening.Engine.{new}
use tatami_ssh.Opening.Peer.{holds_peer}
use tatami_ssh.Opening.Totals.{Weight, total}
use tatami_ssh.Opening.Slots.{SlotsInv, occ}

abbrev pub w_outgoing : Weight
w_outgoing (some (State.pending_outgoing _ _ _)) = 1
w_outgoing (some (State.pending_incoming _ _ _)) = 0
w_outgoing (some (State.established _ _)) = 0
w_outgoing none = 0

abbrev pub w_incoming : Weight
w_incoming (some (State.pending_incoming _ _ _)) = 1
w_incoming (some (State.pending_outgoing _ _ _)) = 0
w_incoming (some (State.established _ _)) = 0
w_incoming none = 0

-- 1 where the slot holds one of our numbers.
abbrev pub w_local : LocalNumber → Weight
w_local n (some (State.pending_outgoing _ m _)) = if m == n then 1 else 0
w_local n (some (State.established m _)) = if m == n then 1 else 0
w_local n (some (State.pending_incoming _ _ _)) = 0
w_local n none = 0

-- 1 where the slot holds one of the peer's numbers.
abbrev pub w_peer : PeerNumber → Weight
w_peer p s = if holds_peer p s then 1 else 0

-- The slots and tombstones that hold one of our numbers.
abbrev pub holders : LocalNumber → List Slot → List LocalNumber → ℕ
holders n slots tombstones = total (w_local n) slots + occ n tombstones

-- The numbers from here on are not allocated yet.
abbrev pub frontier : ℕ → Bool → ℕ
frontier next exhausted = if exhausted then next + 1 else next

-- Our numbers: each is in at most one slot or tombstone, and none from the frontier on is in any.
pub record NumbersInv (next : ℕ) (exhausted : Bool) (slots : List Slot)
    (tombstones : List LocalNumber) : Type 0 where
  pub next_u32 : next < 2 ^ 32
  pub unique : (n : LocalNumber) → holders n slots tombstones ≤ 1
  pub fresh : (n : LocalNumber) → frontier next exhausted ≤ n → holders n slots tombstones ≡ 0

-- The pending counters count the pending slots and respect their limits.
pub record CountsInv (limits : OpeningLimits) (outgoing incoming : ℕ) (slots : List Slot)
    : Type 0 where
  pub outgoing_count : outgoing ≡ total w_outgoing slots
  pub incoming_count : incoming ≡ total w_incoming slots
  pub outgoing_bound : outgoing ≤ limits.max_pending_outgoing
  pub incoming_bound : incoming ≤ limits.max_pending_incoming

-- What holds between any two calls.
pub record IsValid (e : OpeningEngine) : Type 0 where
  pub table : SlotsInv e.limits.max_channels e.live e.free e.slots
  pub counts : CountsInv e.limits e.pending_outgoing e.pending_incoming e.slots
  pub numbers : NumbersInv e.next_local e.numbers_exhausted e.slots e.tombstones
  pub tombstone_bound : length e.tombstones ≤ e.limits.max_tombstones
  pub peers_unique : (p : PeerNumber) → total (w_peer p) e.slots ≤ 1

-- A new engine has the invariant, where its limit on channels fits the 32-bit slot indices.
pub new-IsValid : (limits : OpeningLimits) → limits.max_channels ≤ 2 ^ 32 → IsValid (new limits)
unfolding new total
new-IsValid limits h = record {
  table = record {
    live_count = refl;
    live_bound = omega arith;
    limit_u32 = h;
    free_dead = λ i. refl;
    free_len = omega arith;
    slots_u32 = omega arith;
    generations_u32 = λ i. omega arith;
  };
  counts = record {
    outgoing_count = refl;
    incoming_count = refl;
    outgoing_bound = omega arith;
    incoming_bound = omega arith;
  };
  numbers = record {
    next_u32 = omega arith;
    unique = λ n. omega arith;
    fresh = λ n h. omega arith;
  };
  tombstone_bound = omega arith;
  peers_unique = λ p. omega arith;
}
