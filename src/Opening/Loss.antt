-- ===== src/Opening/Loss.antt =====
-- crates/tatami_ssh_connection/src/opening.rs: the loop of `transport_lost` over the slots, the
-- free stack and the events.
pub mod Emptied
use tatami_ssh.Prelude.{
  ℕ, zero, suc, ◌+◌, ◌≤◌, ◌<◌, ◌≡◌, ◌≢◌, ◌⊎◌, inl, inr, ◌^◌, ◌%◌, arith, refl, Option, none, some,
  List, [], ◌∷◌, length,
}
use tatami_ssh.Opening.Types.{Event, Slot, State, OpeningEngine}
use tatami_ssh.Opening.Engine.{
  generation_at, lost_free, lost_slot, lost_events, lose_slots, transport_lost,
}
use tatami_ssh.Opening.Totals.{Weight, total}
use tatami_ssh.Opening.Slots.{occ, dead_at, w_live}
use tatami_ssh.Opening.Inv.{IsValid, w_outgoing, w_incoming, w_local, w_peer}
use tatami_ssh.Opening.Numbers.{one_at-cases, numbers-le}

-- What the loop does from slot `i` on.
pub record Lost (i : ℕ) (slots : List Slot) (free : List ℕ) (r : List Event × List Slot × List ℕ)
    : Type 0 where
  pub reported : length r.0 ≡ total w_live slots
  pub emptied : (w : Weight) → w none ≡ 0 → total w r.1 ≡ 0
  pub same_length : length r.1 ≡ length slots
  pub freed : length r.2 ≡ length free + total w_live slots
  pub freed_at : (j k : ℕ) → j ≡ i + k → occ j r.2 + dead_at slots k ≡ occ j free + dead_at r.1 k
  pub below : (j : ℕ) → j < i → occ j r.2 ≡ occ j free
  pub generations :
      ((k : ℕ) → generation_at slots k < 2 ^ 32) → (k : ℕ) → generation_at r.1 k < 2 ^ 32

occ-head :
    (i j : ℕ) (free : List ℕ)
    → i < 2 ^ 32
    → ((i ≡ j) × (occ j ((i % 2 ^ 32) ∷ free) ≡ occ j free + 1))
      ⊎ ((i ≢ j) × (occ j ((i % 2 ^ 32) ∷ free) ≡ occ j free))
occ-head i j free small =
    let fits : i % 2 ^ 32 ≡ i = omega arith in
    elim (one_at-cases i j) [
      | inl (same, one) ↦ inl (same, rw fits (omega arith))
      | inr (other, nil) ↦ inr (other, rw fits (omega arith))
    ]

freed-none :
    (i g : ℕ) (slots : List Slot) (free : List ℕ) (r : List Event × List Slot × List ℕ)
    → Lost (i + 1) slots free r
    → (j k : ℕ) → j ≡ i + k
    → occ j r.2 + dead_at (record { generation = g; state = none } ∷ slots) k
      ≡ occ j free + dead_at (record { generation = g; state = none } ∷ r.1) k
freed-none i g slots free r l j zero at = omega (arith, l.below j (omega arith))
freed-none i g slots free r l j (suc k) at = l.freed_at j k (omega arith)

freed-some :
    (i g g' : ℕ) (s : State) (slots : List Slot) (free : List ℕ)
    (r : List Event × List Slot × List ℕ)
    → i < 2 ^ 32
    → Lost (i + 1) slots ((i % 2 ^ 32) ∷ free) r
    → (j k : ℕ) → j ≡ i + k
    → occ j r.2 + dead_at (record { generation = g; state = some s } ∷ slots) k
      ≡ occ j free + dead_at (record { generation = g'; state = none } ∷ r.1) k
freed-some i g g' s slots free r small l j zero at = elim (occ-head i j free small) [
  | inl (same, one) ↦ omega (arith, l.below j (omega arith))
  | inr (other, nil) ↦ absurd (other (omega arith))
]
freed-some i g g' s slots free r small l j (suc k) at = elim (occ-head i j free small) [
  | inl (same, one) ↦ absurd (omega arith)
  | inr (other, nil) ↦ omega (arith, l.freed_at j k (omega arith))
]

below-some :
    (i : ℕ) (slots : List Slot) (free : List ℕ) (r : List Event × List Slot × List ℕ)
    → i < 2 ^ 32
    → Lost (i + 1) slots ((i % 2 ^ 32) ∷ free) r
    → (j : ℕ) → j < i
    → occ j r.2 ≡ occ j free
below-some i slots free r small l j lt = elim (occ-head i j free small) [
  | inl (same, one) ↦ absurd (omega arith)
  | inr (other, nil) ↦ omega (arith, l.below j (omega arith))
]

generations-cons :
    (slot slot' : Slot) (slots slots' : List Slot)
    → (slot.generation < 2 ^ 32 → slot'.generation < 2 ^ 32)
    → (((k : ℕ) → generation_at slots k < 2 ^ 32) → (k : ℕ) → generation_at slots' k < 2 ^ 32)
    → ((k : ℕ) → generation_at (slot ∷ slots) k < 2 ^ 32)
    → (k : ℕ) → generation_at (slot' ∷ slots') k < 2 ^ 32
generations-cons slot slot' slots slots' head tail h zero = head (h 0)
generations-cons slot slot' slots slots' head tail h (suc k) = tail (λ m. h (suc m)) k

-- One slot more in front.
Lost-step :
    (i g : ℕ) (s : Option State) (slots : List Slot) (free : List ℕ)
    (r : List Event × List Slot × List ℕ)
    → i < 2 ^ 32
    → Lost (i + 1) slots (lost_free i s free) r
    → Lost i (record { generation = g; state = s } ∷ slots) free (
      lost_events (record { index = i % 2 ^ 32; generation = g }) s r.0,
      lost_slot s (record { generation = g; state = s }) ∷ r.1,
      r.2,
    )
unfolding total
Lost-step i g none slots free r small l = record {
  reported = omega (arith, l.reported);
  emptied = λ w w0. omega (arith, l.emptied w w0, w0);
  same_length = omega (arith, l.same_length);
  freed = omega (arith, l.freed);
  freed_at = freed-none i g slots free r l;
  below = λ j lt. l.below j (omega arith);
  generations = generations-cons _ _ slots r.1 (λ h. h) l.generations;
}
Lost-step i g (some s) slots free r small l = record {
  reported = omega (arith, l.reported);
  emptied = λ w w0. omega (arith, l.emptied w w0, w0);
  same_length = omega (arith, l.same_length);
  freed = omega (arith, l.freed);
  freed_at = freed-some i g _ s slots free r small l;
  below = below-some i slots free r small l;
  generations = generations-cons _ _ slots r.1 (λ h. omega arith) l.generations;
}

lose_slots-Lost :
    (i : ℕ) (slots : List Slot) (free : List ℕ)
    → i + length slots ≤ 2 ^ 32
    → Lost i slots free (lose_slots i slots free)
unfolding lose_slots total
lose_slots-Lost i [] free small = record {
  reported = refl;
  emptied = λ w w0. refl;
  same_length = refl;
  freed = omega arith;
  freed_at = λ j k at. refl;
  below = λ j lt. refl;
  generations = λ h k. h k;
}
lose_slots-Lost i (slot ∷ slots) free small =
    Lost-step i slot.generation slot.state slots free _ (omega arith)
      (lose_slots-Lost (i + 1) slots (lost_free i slot.state free) (omega arith))

-- On an engine with the invariant `transport_lost` keeps it, reports as many lost channels as there
-- were live ones, and keeps the number of slots.
pub transport_lost-IsValid :
    (e : OpeningEngine)
    → IsValid e
    → IsValid (transport_lost e).1
      × (length (transport_lost e).0 ≡ e.live)
      × (length (transport_lost e).1.slots ≡ length e.slots)
unfolding transport_lost
transport_lost-IsValid e inv =
    let l = lose_slots-Lost 0 e.slots e.free (omega (arith, inv.table.slots_u32)) in
    (
      record {
        table = record {
          live_count = omega (arith, l.emptied w_live refl);
          live_bound = omega arith;
          limit_u32 = inv.table.limit_u32;
          free_dead = λ i. omega (arith, l.freed_at i i (omega arith), inv.table.free_dead i);
          free_len =
              omega (arith, l.freed, l.same_length, inv.table.free_len, inv.table.live_count);
          slots_u32 = omega (arith, l.same_length, inv.table.slots_u32);
          generations_u32 = l.generations inv.table.generations_u32;
        };
        counts = record {
          outgoing_count = omega (arith, l.emptied w_outgoing refl);
          incoming_count = omega (arith, l.emptied w_incoming refl);
          outgoing_bound = omega arith;
          incoming_bound = omega arith;
        };
        numbers =
            numbers-le e.next_local e.numbers_exhausted e.slots _ e.tombstones _ inv.numbers
              (λ m. omega (arith, l.emptied (w_local m) refl));
        tombstone_bound = inv.tombstone_bound;
        peers_unique = λ p. omega (arith, l.emptied (w_peer p) refl);
      },
      omega (arith, l.reported, inv.table.live_count),
      l.same_length,
    )
