-- ===== src/Opening/Incoming.antt =====
-- crates/tatami_ssh_connection/src/opening.rs: the invariant across `handle_open` and
-- `handle_open_failure`.
use tatami_ssh.Prelude.{
  ◌+◌, ◌<◌, ◌≡◌, arith, refl, subst, false, some, Bytes, Result, if_elim, leb, leb→lt,
}
use tatami_ssh.Wire.Channel.{ChannelOpen, ChannelOpenFailure}
use tatami_ssh.Opening.Types.{
  LocalNumber, PeerNumber, ChannelHandle, Credit, Violation, ReplyTarget, State, OpeningEngine,
}
use tatami_ssh.Opening.Engine.{get, remove, insert}
use tatami_ssh.Opening.Peer.{
  peer_in, peer_number_in_use, locate_reply, consume_reply, handle_open, fail_target, fail_located,
  handle_open_failure,
}
use tatami_ssh.Opening.Totals.{total}
use tatami_ssh.Opening.Table.{insert_slots-Inserted}
use tatami_ssh.Opening.Vacate.{remove-Removed}
use tatami_ssh.Opening.Inv.{IsValid, w_outgoing, w_incoming, w_local, w_peer}
use tatami_ssh.Opening.Keeps.{Kept, kept}
use tatami_ssh.Opening.Numbers.{numbers-le, peer_in-total, or-false}
use tatami_ssh.Opening.Replies.{
  Found, found_pending, found_tombstone, found_nothing, locate_reply-Found, peer-once,
  consume-IsValid,
}

fail_target-Kept :
    (msg : ChannelOpenFailure) (h : ChannelHandle) (t : Bytes) (n : LocalNumber) (c : Credit)
    (e : OpeningEngine)
    → IsValid e
    → get e h ≡ some (State.pending_outgoing t n c)
    → Kept (fail_target msg (ReplyTarget.pending h) e)
unfolding fail_target remove get
fail_target-Kept msg h t n c e inv eq =
    let rem =
      remove-Removed h (State.pending_outgoing t n c) e.limits.max_channels e.live e.free e.slots
        inv.table eq in
    let out = rem.totals w_outgoing refl in
    let inc = rem.totals w_incoming refl in
    kept (record {
      table = rem.kept;
      counts = record {
        outgoing_count = omega (arith, inv.counts.outgoing_count);
        incoming_count = omega (arith, inv.counts.incoming_count);
        outgoing_bound = omega (arith, inv.counts.outgoing_bound);
        incoming_bound = inv.counts.incoming_bound;
      };
      numbers =
          numbers-le e.next_local e.numbers_exhausted e.slots _ e.tombstones _ inv.numbers
            (λ m. omega (arith, rem.totals (w_local m) refl));
      tombstone_bound = inv.tombstone_bound;
      peers_unique = λ p. omega (arith, inv.peers_unique p, rem.totals (w_peer p) refl);
    })

fail_located-Kept :
    (msg : ChannelOpenFailure) (r : Result Violation ReplyTarget) (e : OpeningEngine)
    → IsValid e
    → Found msg.recipient_channel e r
    → Kept (fail_located msg r e)
unfolding fail_located fail_target consume_reply
fail_located-Kept msg _ e inv (found_nothing v) = kept inv
fail_located-Kept msg _ e inv (found_tombstone here) =
    kept (consume-IsValid msg.recipient_channel e inv)
fail_located-Kept msg _ e inv (found_pending h t c eq) =
    fail_target-Kept msg h t msg.recipient_channel c e inv eq

-- `handle_open_failure` keeps the invariant of the engine, on every outcome.
pub handle_open_failure-Kept :
    (msg : ChannelOpenFailure) (e : OpeningEngine) → IsValid e → Kept (handle_open_failure msg e)
unfolding handle_open_failure
handle_open_failure-Kept msg e inv =
    fail_located-Kept msg (locate_reply msg.recipient_channel e) e inv
      (locate_reply-Found msg.recipient_channel e inv)

-- A request of the peer's that is within the limits.
open_admitted-IsValid :
    (t : Bytes) (p : PeerNumber) (c : Credit) (e : OpeningEngine)
    → IsValid e
    → peer_in p e.slots ≡ false
    → e.pending_incoming < e.limits.max_pending_incoming
    → e.live < e.limits.max_channels
    → let e' = (insert (State.pending_incoming t p c) e).1 in
      IsValid (record e' { pending_incoming = e'.pending_incoming + 1 })
unfolding insert
open_admitted-IsValid t p c e inv new_peer some_pending some_live =
    let ins =
      insert_slots-Inserted (State.pending_incoming t p c) e.limits.max_channels e.live e.free
        e.slots inv.table some_live in
    let nobody = peer_in-total p e.slots new_peer in
    record {
      table = ins.kept;
      counts = record {
        outgoing_count = omega (arith, inv.counts.outgoing_count, ins.totals w_outgoing refl);
        incoming_count = omega (arith, inv.counts.incoming_count, ins.totals w_incoming refl);
        outgoing_bound = inv.counts.outgoing_bound;
        incoming_bound = omega arith;
      };
      numbers =
          numbers-le e.next_local e.numbers_exhausted e.slots _ e.tombstones _ inv.numbers
            (λ m. omega (arith, ins.totals (w_local m) refl));
      tombstone_bound = inv.tombstone_bound;
      peers_unique = λ q.
          peer-once p q (total (w_peer q) e.slots) (omega (arith, ins.totals (w_peer q) refl))
            (inv.peers_unique q) (λ same. subst (λ r. total (w_peer r) e.slots ≡ 0) same nobody);
    }

-- `handle_open` keeps the invariant of the engine, on every outcome.
pub handle_open-Kept :
    (msg : ChannelOpen) (e : OpeningEngine) → IsValid e → Kept (handle_open msg e)
unfolding handle_open peer_number_in_use
handle_open-Kept msg e inv =
    if_elim Kept (peer_in msg.sender_channel e.slots) _ _ (λ _. kept inv)
      (λ new_peer.
        if_elim Kept _ _ _
          (λ _. kept (record {
            table = inv.table;
            counts = inv.counts;
            numbers = inv.numbers;
            tombstone_bound = inv.tombstone_bound;
            peers_unique = inv.peers_unique;
          }))
          (λ within.
            let (a, b) =
              or-false (leb e.limits.max_pending_incoming e.pending_incoming)
                (leb e.limits.max_channels e.live) within in
            kept (open_admitted-IsValid _ _ _ e inv new_peer (leb→lt _ _ a) (leb→lt _ _ b))))
