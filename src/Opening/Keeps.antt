-- ===== src/Opening/Keeps.antt =====
-- crates/tatami_ssh_connection/src/opening.rs: the invariant across `open`, and the cases of
-- `allocate_number`.
use tatami_ssh.Prelude.{
  ℕ, ◌+◌, ◌<◌, ◌≡◌, ◌^◌, arith, refl, sym, subst, Bool, true, false, Outcome, done, fail, final,
  and_then, if_elim, leb→lt, ltb, ltb→lt,
}
use tatami_ssh.Opening.Types.{LocalNumber, OpenParams, OpenError, State, OpeningEngine}
use tatami_ssh.Opening.Engine.{allocate_number, open_channel, open_allocated, insert, u32_max}
use tatami_ssh.Opening.Table.{insert_slots-Inserted}
use tatami_ssh.Opening.Inv.{IsValid, NumbersInv, frontier, w_outgoing, w_incoming, w_local, w_peer}
use tatami_ssh.Opening.Numbers.{numbers-add}

-- The engine that a method leaves, by any return, has the invariant.
pub record Kept {ℓ κ} {E : Type ℓ} {A : Type κ} (o : Outcome OpeningEngine E A) : Type 0 where
  pub valid : IsValid (final o)

pub kept {ℓ κ} :
    {E : Type ℓ} {A : Type κ} {o : Outcome OpeningEngine E A} → IsValid (final o) → Kept o
kept inv = record { valid = inv }

-- An allocation fails and changes nothing, or gives the next number and moves the frontier by one.
pub allocate-cases {κ} :
    (P : Outcome OpeningEngine OpenError LocalNumber → Type κ) (e : OpeningEngine)
    → e.next_local < 2 ^ 32
    → (e.numbers_exhausted ≡ true → P (fail OpenError.numbers_exhausted e))
    → ((next' : ℕ) (exhausted : Bool)
        → e.numbers_exhausted ≡ false
        → frontier next' exhausted ≡ e.next_local + 1
        → next' < 2 ^ 32
        → P (done e.next_local (record e { next_local = next'; numbers_exhausted = exhausted })))
    → P (allocate_number e)
unfolding allocate_number
allocate-cases P e small out more = if_elim P e.numbers_exhausted _ _ out (λ numbered.
    if_elim P (ltb e.next_local u32_max) _ _
      (λ below.
        subst
          (λ b.
            P (
              done e.next_local
                (record e { next_local = e.next_local + 1; numbers_exhausted = b })))
          (sym numbered)
          (more (e.next_local + 1) false numbered refl (omega (arith, ltb→lt _ _ below))))
      (λ last. more e.next_local true numbered refl small))

-- `open` behind the allocation: the new number is held by the new slot.
open_allocated-Kept :
    (params : OpenParams) (e : OpeningEngine)
    → IsValid e
    → e.pending_outgoing < e.limits.max_pending_outgoing
    → e.live < e.limits.max_channels
    → (next' : ℕ) (exhausted : Bool) → e.numbers_exhausted ≡ false
    → frontier next' exhausted ≡ e.next_local + 1
    → next' < 2 ^ 32
    → Kept (
        open_allocated params e.next_local
          (record e { next_local = next'; numbers_exhausted = exhausted }))
unfolding open_allocated insert
open_allocated-Kept params e inv some_pending some_live next' exhausted numbered front small =
    let state = State.pending_outgoing params.channel_type e.next_local params.local in
    let ins =
      insert_slots-Inserted state e.limits.max_channels e.live e.free e.slots inv.table some_live in
    let unused : NumbersInv e.next_local false e.slots e.tombstones =
      subst (λ b. NumbersInv e.next_local b e.slots e.tombstones) numbered inv.numbers in
    kept (record {
      table = ins.kept;
      counts = record {
        outgoing_count = omega (arith, inv.counts.outgoing_count, ins.totals w_outgoing refl);
        incoming_count = omega (arith, inv.counts.incoming_count, ins.totals w_incoming refl);
        outgoing_bound = omega arith;
        incoming_bound = inv.counts.incoming_bound;
      };
      numbers =
          numbers-add e.next_local next' exhausted e.slots _ e.tombstones unused front small
            (λ n. ins.totals (w_local n) refl);
      tombstone_bound = inv.tombstone_bound;
      peers_unique = λ p. omega (arith, inv.peers_unique p, ins.totals (w_peer p) refl);
    })

-- `open` keeps the invariant of the engine, on every outcome.
pub open_channel-Kept :
    (params : OpenParams) (e : OpeningEngine) → IsValid e → Kept (open_channel params e)
unfolding open_channel
open_channel-Kept params e inv =
    if_elim Kept _ _ _ (λ _. kept inv)
      (λ some_pending.
        if_elim Kept _ _ _ (λ _. kept inv)
          (λ some_live.
            allocate-cases (λ o. Kept (and_then o (open_allocated params))) e inv.numbers.next_u32
              (λ _. kept inv)
              (open_allocated-Kept params e inv (leb→lt _ _ some_pending) (leb→lt _ _ some_live))))
