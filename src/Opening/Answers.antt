-- ===== src/Opening/Answers.antt =====
-- crates/tatami_ssh_connection/src/opening.rs: the invariant across `cancel`, `refuse` and `accept`.
use tatami_ssh.Prelude.{
  ℕ, ◌+◌, ◌<◌, ◌≡◌, ◌^◌, arith, refl, subst, Bool, false, Option, none, some, Bytes,
}
use tatami_ssh.Opening.Types.{PeerNumber, ChannelHandle, Credit, AcceptParams, State, OpeningEngine}
use tatami_ssh.Opening.Engine.{
  get, cancel, cancel_state, remove, refuse, refuse_state, refuse_with, accept, accept_state,
  accept_allocated, accept_number, set_slot,
}
use tatami_ssh.Opening.Vacate.{remove-Removed, set_slot-Changed}
use tatami_ssh.Opening.Inv.{IsValid, NumbersInv, frontier, w_outgoing, w_incoming, w_local, w_peer}
use tatami_ssh.Opening.Keeps.{Kept, kept, allocate-cases}
use tatami_ssh.Opening.Numbers.{numbers-add, numbers-le, occ-bury, length-bury}

cancel_state-Kept :
    (h : ChannelHandle) (o : Option State) (e : OpeningEngine)
    → IsValid e
    → get e h ≡ o
    → Kept (cancel_state h o e)
unfolding cancel_state remove get
cancel_state-Kept h none e inv eq = kept inv
cancel_state-Kept h (some (State.pending_incoming t p c)) e inv eq = kept inv
cancel_state-Kept h (some (State.established n p)) e inv eq = kept inv
cancel_state-Kept h (some (State.pending_outgoing t n c)) e inv eq =
    let rem =
      remove-Removed h (State.pending_outgoing t n c) e.limits.max_channels e.live e.free e.slots
        inv.table eq in
    let out = rem.totals w_outgoing refl in
    let inc = rem.totals w_incoming refl in
    kept (record {
      table = rem.kept;
      counts = record {
        outgoing_count = omega (arith, inv.counts.outgoing_count);
        incoming_count = omega (arith, inv.counts.incoming_count);
        outgoing_bound = omega (arith, inv.counts.outgoing_bound);
        incoming_bound = inv.counts.incoming_bound;
      };
      numbers =
          numbers-le e.next_local e.numbers_exhausted e.slots _ e.tombstones _ inv.numbers (λ m.
            omega (
              arith,
              rem.totals (w_local m) refl,
              occ-bury m e.limits.max_tombstones n e.tombstones,
            ));
      tombstone_bound = length-bury e.limits.max_tombstones n e.tombstones;
      peers_unique = λ p. omega (arith, inv.peers_unique p, rem.totals (w_peer p) refl);
    })

-- `cancel` keeps the invariant of the engine, on every outcome.
pub cancel-Kept : (h : ChannelHandle) (e : OpeningEngine) → IsValid e → Kept (cancel h e)
unfolding cancel
cancel-Kept h e inv = cancel_state-Kept h (get e h) e inv refl

-- A refusal of a pending request of the peer's.
refuse_with-IsValid :
    (h : ChannelHandle) (t : Bytes) (p : PeerNumber) (c : Credit) (reason_code : ℕ)
    (description : Bytes) (e : OpeningEngine)
    → IsValid e
    → get e h ≡ some (State.pending_incoming t p c)
    → IsValid (refuse_with h p reason_code description e)
unfolding refuse_with remove get
refuse_with-IsValid h t p c reason_code description e inv eq =
    let rem =
      remove-Removed h (State.pending_incoming t p c) e.limits.max_channels e.live e.free e.slots
        inv.table eq in
    let out = rem.totals w_outgoing refl in
    let inc = rem.totals w_incoming refl in
    record {
      table = rem.kept;
      counts = record {
        outgoing_count = omega (arith, inv.counts.outgoing_count);
        incoming_count = omega (arith, inv.counts.incoming_count);
        outgoing_bound = inv.counts.outgoing_bound;
        incoming_bound = omega (arith, inv.counts.incoming_bound);
      };
      numbers =
          numbers-le e.next_local e.numbers_exhausted e.slots _ e.tombstones _ inv.numbers
            (λ m. omega (arith, rem.totals (w_local m) refl));
      tombstone_bound = inv.tombstone_bound;
      peers_unique = λ q. omega (arith, inv.peers_unique q, rem.totals (w_peer q) refl);
    }

refuse_state-Kept :
    (h : ChannelHandle) (reason_code : ℕ) (description : Bytes) (o : Option State)
    (e : OpeningEngine)
    → IsValid e
    → get e h ≡ o
    → Kept (refuse_state h reason_code description o e)
unfolding refuse_state
refuse_state-Kept h reason_code description none e inv eq = kept inv
refuse_state-Kept h reason_code description (some (State.pending_outgoing t n c)) e inv eq =
    kept inv
refuse_state-Kept h reason_code description (some (State.established n p)) e inv eq = kept inv
refuse_state-Kept h reason_code description (some (State.pending_incoming t p c)) e inv eq =
    kept (refuse_with-IsValid h t p c reason_code description e inv eq)

-- `refuse` keeps the invariant of the engine, on every outcome.
pub refuse-Kept :
    (h : ChannelHandle) (reason_code : ℕ) (description : Bytes) (e : OpeningEngine)
    → IsValid e
    → Kept (refuse h reason_code description e)
unfolding refuse
refuse-Kept h reason_code description e inv =
    refuse_state-Kept h reason_code description (get e h) e inv refl

accept_number-Kept :
    (h : ChannelHandle) (params : AcceptParams) (t : Bytes) (p : PeerNumber) (c : Credit)
    (e : OpeningEngine)
    → IsValid e
    → get e h ≡ some (State.pending_incoming t p c)
    → (next' : ℕ) (exhausted : Bool) → e.numbers_exhausted ≡ false
    → frontier next' exhausted ≡ e.next_local + 1
    → next' < 2 ^ 32
    → Kept (
        accept_number h params t p c e.next_local
          (record e { next_local = next'; numbers_exhausted = exhausted }))
unfolding accept_number set_slot get
accept_number-Kept h params t p c e inv eq next' exhausted numbered front small =
    let new_state = State.established e.next_local p in
    let cha =
      set_slot-Changed h (State.pending_incoming t p c) new_state e.limits.max_channels e.live
        e.free e.slots inv.table eq in
    let out = cha.totals w_outgoing in
    let inc = cha.totals w_incoming in
    let unused : NumbersInv e.next_local false e.slots e.tombstones =
      subst (λ b. NumbersInv e.next_local b e.slots e.tombstones) numbered inv.numbers in
    kept (record {
      table = cha.kept;
      counts = record {
        outgoing_count = omega (arith, inv.counts.outgoing_count);
        incoming_count = omega (arith, inv.counts.incoming_count);
        outgoing_bound = inv.counts.outgoing_bound;
        incoming_bound = omega (arith, inv.counts.incoming_bound);
      };
      numbers =
          numbers-add e.next_local next' exhausted e.slots _ e.tombstones unused front small
            (λ n. omega (arith, cha.totals (w_local n)));
      tombstone_bound = inv.tombstone_bound;
      peers_unique = λ q. omega (arith, inv.peers_unique q, cha.totals (w_peer q));
    })

accept_state-Kept :
    (h : ChannelHandle) (params : AcceptParams) (o : Option State) (e : OpeningEngine)
    → IsValid e
    → get e h ≡ o
    → Kept (accept_state h params o e)
unfolding accept_state accept_allocated
accept_state-Kept h params none e inv eq = kept inv
accept_state-Kept h params (some (State.pending_outgoing t n c)) e inv eq = kept inv
accept_state-Kept h params (some (State.established n p)) e inv eq = kept inv
accept_state-Kept h params (some (State.pending_incoming t p c)) e inv eq =
    allocate-cases (λ o. Kept (accept_allocated h params t p c o)) e inv.numbers.next_u32
      (λ _. kept (refuse_with-IsValid h t p c _ _ e inv eq))
      (accept_number-Kept h params t p c e inv eq)

-- `accept` keeps the invariant of the engine, on every outcome.
pub accept-Kept :
    (h : ChannelHandle) (params : AcceptParams) (e : OpeningEngine)
    → IsValid e
    → Kept (accept h params e)
unfolding accept
accept-Kept h params e inv = accept_state-Kept h params (get e h) e inv refl
