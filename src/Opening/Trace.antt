-- ===== src/Opening/Trace.antt =====
-- crates/tatami_ssh_connection/src/opening.rs: runs of the engine, with the application's calls and
-- the peer's messages in any order, and the outcome of `open`.
use tatami_ssh.Prelude.{
  ℕ, ◌+◌, ◌≤◌, ◌≡◌, ◌^◌, arith, refl, Bytes, Option, some, List, [], ◌∷◌, ◌++◌, Outcome, done, fail,
  final, and_then, if_elim, leb, leb→lt, none,
}
use tatami_ssh.Wire.Channel.{ChannelOpen, ChannelOpenConfirmation, ChannelOpenFailure}
use tatami_ssh.Opening.Types.{
  ChannelHandle, OpeningLimits, OpenParams, AcceptParams, Outgoing, OpenError, State, OpeningEngine,
}
use tatami_ssh.Opening.Engine.{
  new, next_outgoing, get, insert, open_channel, open_allocated, cancel, refuse, accept,
  transport_lost,
}
use tatami_ssh.Opening.Peer.{handle_open, handle_open_confirmation, handle_open_failure}
use tatami_ssh.Opening.Inv.{IsValid, new-IsValid, holders, frontier}
use tatami_ssh.Opening.Table.{insert_slots-Inserted}
use tatami_ssh.Opening.Keeps.{open_channel-Kept, allocate-cases}
use tatami_ssh.Opening.Answers.{cancel-Kept, refuse-Kept, accept-Kept}
use tatami_ssh.Opening.Replies.{handle_open_confirmation-Kept}
use tatami_ssh.Opening.Incoming.{handle_open-Kept, handle_open_failure-Kept}
use tatami_ssh.Opening.Loss.{transport_lost-IsValid}

-- The engines that calls of the public methods lead to, whatever the calls return.
pub data Reachable (limits : OpeningLimits) : OpeningEngine → Type 0 where
  fresh : Reachable limits (new limits)
  polled : (e : OpeningEngine) → Reachable limits e → Reachable limits (next_outgoing e).1
  opened :
      (params : OpenParams) (e : OpeningEngine)
      → Reachable limits e
      → Reachable limits (final (open_channel params e))
  cancelled :
      (h : ChannelHandle) (e : OpeningEngine)
      → Reachable limits e
      → Reachable limits (final (cancel h e))
  declined :
      (h : ChannelHandle) (reason_code : ℕ) (description : Bytes) (e : OpeningEngine)
      → Reachable limits e
      → Reachable limits (final (refuse h reason_code description e))
  accepted :
      (h : ChannelHandle) (params : AcceptParams) (e : OpeningEngine)
      → Reachable limits e
      → Reachable limits (final (accept h params e))
  asked :
      (msg : ChannelOpen) (e : OpeningEngine)
      → Reachable limits e
      → Reachable limits (final (handle_open msg e))
  confirmed :
      (msg : ChannelOpenConfirmation) (e : OpeningEngine)
      → Reachable limits e
      → Reachable limits (final (handle_open_confirmation msg e))
  failed :
      (msg : ChannelOpenFailure) (e : OpeningEngine)
      → Reachable limits e
      → Reachable limits (final (handle_open_failure msg e))
  lost : (e : OpeningEngine) → Reachable limits e → Reachable limits (transport_lost e).1

next_outgoing-IsValid : (e : OpeningEngine) → IsValid e → IsValid (next_outgoing e).1
unfolding next_outgoing
next_outgoing-IsValid e inv = go e.outgoing
  where
    go :
        (ms : List Outgoing)
        → IsValid
            (elim ms as (λ _. Option Outgoing × OpeningEngine) [
              | [] ↦ (none, e)
              | m ∷ rest ↦ (some m, record e { outgoing = rest })
            ]).1
    go [] = inv
    go (m ∷ rest) = record {
      table = inv.table;
      counts = inv.counts;
      numbers = inv.numbers;
      tombstone_bound = inv.tombstone_bound;
      peers_unique = inv.peers_unique;
    }

-- Every engine that any sequence of calls reaches has the invariant, where the limit on channels
-- fits the 32-bit slot indices.
pub Reachable-IsValid :
    (limits : OpeningLimits)
    → limits.max_channels ≤ 2 ^ 32
    → (e : OpeningEngine) → Reachable limits e
    → IsValid e
Reachable-IsValid limits small _ fresh = new-IsValid limits small
Reachable-IsValid limits small _ (polled e r) =
    next_outgoing-IsValid e (Reachable-IsValid limits small e r)
Reachable-IsValid limits small _ (opened params e r) =
    (open_channel-Kept params e (Reachable-IsValid limits small e r)).valid
Reachable-IsValid limits small _ (cancelled h e r) =
    (cancel-Kept h e (Reachable-IsValid limits small e r)).valid
Reachable-IsValid limits small _ (declined h code description e r) =
    (refuse-Kept h code description e (Reachable-IsValid limits small e r)).valid
Reachable-IsValid limits small _ (accepted h params e r) =
    (accept-Kept h params e (Reachable-IsValid limits small e r)).valid
Reachable-IsValid limits small _ (asked msg e r) =
    (handle_open-Kept msg e (Reachable-IsValid limits small e r)).valid
Reachable-IsValid limits small _ (confirmed msg e r) =
    (handle_open_confirmation-Kept msg e (Reachable-IsValid limits small e r)).valid
Reachable-IsValid limits small _ (failed msg e r) =
    (handle_open_failure-Kept msg e (Reachable-IsValid limits small e r)).valid
Reachable-IsValid limits small _ (lost e r) =
    (transport_lost-IsValid e (Reachable-IsValid limits small e r)).0

-- What a successful `open` gives: an unused number, a handle on the pending channel, the message.
pub record Opened (params : OpenParams) (e : OpeningEngine) (h : ChannelHandle) (e' : OpeningEngine)
    : Type 0 where
  pub unused : holders e.next_local e.slots e.tombstones ≡ 0
  pub resolves :
      get e' h ≡ some (State.pending_outgoing params.channel_type e.next_local params.local)
  pub queued :
      e'.outgoing
      ≡ e.outgoing
        ++ (Outgoing.open_channel params.channel_type e.next_local params.local params.type_specific
            ∷ [])
  pub advanced : frontier e'.next_local e'.numbers_exhausted ≡ e.next_local + 1

-- `Opened` of a success, and nothing changed by a failure.
pub data OpensOr (params : OpenParams) (e : OpeningEngine)
    : Outcome OpeningEngine OpenError ChannelHandle → Type 0 where
  opens :
      (h : ChannelHandle) (e' : OpeningEngine) → Opened params e h e' → OpensOr params e (done h e')
  refuses : (x : OpenError) → OpensOr params e (fail x e)

-- `open` on an engine with the invariant: a success allocates a number that no slot and no
-- tombstone holds, gives a handle that resolves to the pending channel and queues the request; a
-- failure changes nothing.
pub open_channel-OpensOr :
    (params : OpenParams) (e : OpeningEngine) → IsValid e → OpensOr params e (open_channel params e)
unfolding open_channel open_allocated insert get
open_channel-OpensOr params e inv =
    if_elim (OpensOr params e) (leb e.limits.max_pending_outgoing e.pending_outgoing) _ _
      (λ _. refuses _)
      (λ a.
        if_elim (OpensOr params e) (leb e.limits.max_channels e.live) _ _ (λ _. refuses _)
          (λ b.
            allocate-cases (λ o. OpensOr params e (and_then o (open_allocated params))) e
              inv.numbers.next_u32 (λ _. refuses _)
              (λ next' exhausted numbered front small. opens _ _ (record {
                unused = inv.numbers.fresh e.next_local (rw numbered (omega arith));
                resolves =
                    (insert_slots-Inserted
                      (State.pending_outgoing params.channel_type e.next_local params.local)
                      e.limits.max_channels e.live e.free e.slots inv.table
                      (leb→lt _ _ b)).resolves;
                queued = refl;
                advanced = front;
              }))))
