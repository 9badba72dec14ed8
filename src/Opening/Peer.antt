-- ===== src/Opening/Peer.antt =====
-- crates/tatami_ssh_connection/src/opening.rs: what the engine does on the peer's messages.
use tatami_ssh.Prelude.{
  codes, ℕ, ◌+◌, ◌-◌, ◌%◌, ◌^◌, Bool, false, ◌&&◌, ◌||◌, Option, none, some, List, [], ◌∷◌, Result,
  ok, err, Outcome, done, fail, leb, ◌==◌, if◌then◌else◌,
}
use tatami_ssh.Wire.Channel.{
  ChannelOpen, ChannelOpenConfirmation, ChannelOpenFailure, resource_shortage,
}
use tatami_ssh.Opening.Types.{
  LocalNumber, PeerNumber, ChannelHandle, Credit, LateReply, Event, Outgoing, Violation, State,
  Slot, OpeningEngine, ReplyTarget,
}
use tatami_ssh.Opening.Engine.{get, set_slot, remove, insert, send}

-- `Violation`, or the `unreachable!` of `handle_open_confirmation`.
pub data Raised : Type 0 where
  violation : Violation → Raised
  panic : Raised

abbrev pub holds_peer : PeerNumber → Option State → Bool
holds_peer p (some (State.pending_incoming _ q _)) = q == p
holds_peer p (some (State.established _ q)) = q == p
holds_peer p (some (State.pending_outgoing _ _ _)) = false
holds_peer p none = false

unfoldable pub peer_in : PeerNumber → List Slot → Bool
peer_in p [] = false
peer_in p (slot ∷ slots) = holds_peer p slot.state || peer_in p slots

unfoldable pub peer_number_in_use : PeerNumber → OpeningEngine → Bool
unfolding peer_in
peer_number_in_use p e = peer_in p e.slots

-- The arms of the loop of `locate_reply`: `some` where the slot decides.
abbrev pub classify :
    LocalNumber → ChannelHandle → Option State → Option (Result Violation ReplyTarget)
classify wanted h (some (State.pending_outgoing _ n _)) =
    if n == wanted then some (ok (ReplyTarget.pending h)) else none
classify wanted h (some (State.established n _)) =
    if n == wanted then some (err (Violation.duplicate_reply wanted)) else none
classify wanted h (some (State.pending_incoming _ _ _)) = none
classify wanted h none = none

-- The loop returns at the first slot that decides.
abbrev pub first_of :
    Option (Result Violation ReplyTarget)
    → Option (Result Violation ReplyTarget)
    → Option (Result Violation ReplyTarget)
first_of (some r) rest = some r
first_of none rest = rest

unfoldable pub locate_slot : LocalNumber → ℕ → List Slot → Option (Result Violation ReplyTarget)
locate_slot wanted i [] = none
locate_slot wanted i (slot ∷ slots) =
    first_of
      (classify wanted (record { index = i % 2 ^ 32; generation = slot.generation }) slot.state)
      (locate_slot wanted (i + 1) slots)

unfoldable pub contains_number : LocalNumber → List LocalNumber → Bool
contains_number n [] = false
contains_number n (t ∷ ts) = t == n || contains_number n ts

abbrev pub asks_from : PeerNumber → Option State → Bool
asks_from p (some (State.pending_incoming _ q _)) = q == p
asks_from p (some (State.established _ _)) = false
asks_from p (some (State.pending_outgoing _ _ _)) = false
asks_from p none = false

unfoldable pub any_asks_from : PeerNumber → List Slot → Bool
any_asks_from p [] = false
any_asks_from p (slot ∷ slots) = asks_from p slot.state || any_asks_from p slots

-- The part of `locate_reply` behind the loop.
unfoldable pub locate_other : ℕ → OpeningEngine → Result Violation ReplyTarget
locate_other recipient e =
    if contains_number recipient e.tombstones
    then ok (ReplyTarget.tombstone recipient)
    else if any_asks_from recipient e.slots && leb e.next_local recipient
    then err (Violation.reply_to_incoming recipient)
    else err (Violation.unknown_recipient recipient)

unfoldable pub locate_reply : ℕ → OpeningEngine → Result Violation ReplyTarget
unfolding locate_slot locate_other contains_number any_asks_from
locate_reply recipient e = elim (locate_slot recipient 0 e.slots) [
  | some r ↦ r
  | none ↦ locate_other recipient e
]

-- The first occurrence goes.
unfoldable pub remove_first : LocalNumber → List LocalNumber → List LocalNumber
remove_first n [] = []
remove_first n (t ∷ ts) = let rest = remove_first n ts in if t == n then ts else t ∷ rest

unfoldable pub consume_reply : ReplyTarget → OpeningEngine → OpeningEngine
unfolding remove_first
consume_reply (ReplyTarget.pending h) e = e
consume_reply (ReplyTarget.tombstone n) e = record e { tombstones = remove_first n e.tombstones }

abbrev pub credit_of : ℕ → ℕ → Credit
credit_of w p = record { initial_window_size = w; maximum_packet_size = p }

unfoldable pub handle_open : ChannelOpen → OpeningEngine → Outcome OpeningEngine Violation Event
handle_open msg e =
    let p = msg.sender_channel in
    let peer = credit_of msg.initial_window_size msg.maximum_packet_size in
    let (handle, e') = insert (State.pending_incoming msg.channel_type p peer) e in
    if peer_number_in_use p e
    then fail (Violation.duplicate_peer_number p) e
    else if leb e.limits.max_pending_incoming e.pending_incoming || leb e.limits.max_channels e.live
    then done (Event.incoming_refused_by_limit p msg.channel_type)
        (send (Outgoing.open_failure p resource_shortage (codes "too many pending channels") []) e)
    else done (Event.incoming_open handle msg.channel_type p peer msg.type_specific)
        (record e' { pending_incoming = e'.pending_incoming + 1 })

-- The arm of a pending slot, on the state that its handle refers to.
unfoldable pub confirm_state :
    ChannelOpenConfirmation
    → ChannelHandle
    → Option State
    → OpeningEngine
    → Outcome OpeningEngine Raised Event
confirm_state msg h (some (State.pending_outgoing channel_type n local)) e =
    let p = msg.sender_channel in
    let peer = credit_of msg.initial_window_size msg.maximum_packet_size in
    let e' = set_slot h (State.established n p) e in
    done (Event.established h channel_type n p local peer msg.type_specific)
      (record e' { pending_outgoing = e'.pending_outgoing - 1 })
confirm_state msg h (some (State.pending_incoming _ _ _)) e = fail panic e
confirm_state msg h (some (State.established _ _)) e = fail panic e
confirm_state msg h none e = fail panic e

-- The two arms on the consumed target.
unfoldable pub confirm_target :
    ChannelOpenConfirmation → ReplyTarget → OpeningEngine → Outcome OpeningEngine Raised Event
confirm_target msg (ReplyTarget.pending h) e = confirm_state msg h (get e h) e
confirm_target msg (ReplyTarget.tombstone n) e =
    let peer = credit_of msg.initial_window_size msg.maximum_packet_size in
    done (Event.late_reply n (LateReply.confirmed msg.sender_channel peer)) e

-- The part of `handle_open_confirmation` behind `locate_reply`.
unfoldable pub confirm_located :
    ChannelOpenConfirmation
    → Result Violation ReplyTarget
    → OpeningEngine
    → Outcome OpeningEngine Raised Event
confirm_located msg (err v) e = fail (violation v) e
confirm_located msg (ok target) e =
    if peer_number_in_use msg.sender_channel e
    then fail (violation (Violation.duplicate_peer_number msg.sender_channel)) e
    else confirm_target msg target (consume_reply target e)

unfoldable pub handle_open_confirmation :
    ChannelOpenConfirmation → OpeningEngine → Outcome OpeningEngine Raised Event
unfolding confirm_located confirm_target confirm_state
handle_open_confirmation msg e = confirm_located msg (locate_reply msg.recipient_channel e) e

unfoldable pub fail_target :
    ChannelOpenFailure → ReplyTarget → OpeningEngine → Outcome OpeningEngine Violation Event
fail_target msg (ReplyTarget.pending h) e =
    let e' = remove h e in
    done (Event.refused h msg.reason_code msg.description msg.language_tag)
      (record e' { pending_outgoing = e'.pending_outgoing - 1 })
fail_target msg (ReplyTarget.tombstone n) e =
    done (Event.late_reply n (LateReply.refused msg.reason_code)) e

unfoldable pub fail_located :
    ChannelOpenFailure
    → Result Violation ReplyTarget
    → OpeningEngine
    → Outcome OpeningEngine Violation Event
fail_located msg (err v) e = fail v e
fail_located msg (ok target) e = fail_target msg target (consume_reply target e)

unfoldable pub handle_open_failure :
    ChannelOpenFailure → OpeningEngine → Outcome OpeningEngine Violation Event
unfolding fail_located fail_target
handle_open_failure msg e = fail_located msg (locate_reply msg.recipient_channel e) e
