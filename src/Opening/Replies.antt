-- ===== src/Opening/Replies.antt =====
-- crates/tatami_ssh_connection/src/opening.rs: what `locate_reply` finds, and the invariant across
-- `handle_open_confirmation`.
use tatami_ssh.Prelude.{
  ℕ, suc, ◌+◌, ◌≤◌, ◌<◌, ◌≡◌, ◌^◌, ◌%◌, arith, refl, subst, true, false, ◌&&◌, Option, none, some,
  Bytes, List, [], ◌∷◌, Result, ok, err, fail, if_elim, length, get_elem?, ◌==◌, ==_iff, ==_self,
  Bool-cases, inl, inr, if◌then◌else◌, leb,
}
use tatami_ssh.Wire.Channel.{ChannelOpenConfirmation}
use tatami_ssh.Opening.Types.{
  LocalNumber, ChannelHandle, Credit, Violation, ReplyTarget, State, Slot, OpeningEngine,
}
use tatami_ssh.Opening.Engine.{get, live_state, set_slot}
use tatami_ssh.Opening.Peer.{
  violation, peer_in, peer_number_in_use, classify, first_of, locate_slot, locate_other,
  locate_reply, contains_number, any_asks_from, consume_reply, confirm_state, confirm_target,
  confirm_located, handle_open_confirmation,
}
use tatami_ssh.Opening.Totals.{total}
use tatami_ssh.Opening.Vacate.{set_slot-Changed}
use tatami_ssh.Opening.Inv.{IsValid, w_outgoing, w_incoming, w_local, w_peer}
use tatami_ssh.Opening.Keeps.{Kept, kept}
use tatami_ssh.Opening.Numbers.{
  one_at, one_at-cases, numbers-le, occ-remove_first, length-remove_first, peer_in-total,
}

-- The slot `h` of ours waits for an answer under the number `n`.
pub record Waits (n : LocalNumber) (slots : List Slot) (h : ChannelHandle) (i : ℕ) : Type 0 where
  pub channel_type : Bytes
  pub local : Credit
  pub state : live_state h (get_elem? slots i) ≡ some (State.pending_outgoing channel_type n local)

-- What the loop of `locate_reply` may decide: a pending slot of that number, or a second reply.
pub data Located (wanted : LocalNumber) (i : ℕ) (slots : List Slot)
    : Option (Result Violation ReplyTarget) → Type 0 where
  nowhere : Located wanted i slots none
  waiting :
      (h : ChannelHandle) (k : ℕ)
      → h.index ≡ i + k
      → Waits wanted slots h k
      → Located wanted i slots (some (ok (ReplyTarget.pending h)))
  answered : Located wanted i slots (some (err (Violation.duplicate_reply wanted)))

later :
    (wanted : LocalNumber) (i : ℕ) (slot : Slot) (slots : List Slot)
    (o : Option (Result Violation ReplyTarget))
    → Located wanted (i + 1) slots o
    → Located wanted i (slot ∷ slots) o
later wanted i slot slots _ nowhere = nowhere
later wanted i slot slots _ (waiting h k at w) =
    waiting h (suc k) (omega arith)
      (record { channel_type = w.channel_type; local = w.local; state = w.state })
later wanted i slot slots _ answered = answered

here :
    (wanted : LocalNumber) (i g : ℕ) (s : Option State) (slots : List Slot)
    (o : Option (Result Violation ReplyTarget))
    → i < 2 ^ 32
    → Located wanted i (record { generation = g; state = s } ∷ slots) o
    → Located wanted i
        (record { generation = g; state = s } ∷ slots)
        (first_of (classify wanted (record { index = i % 2 ^ 32; generation = g }) s) o)
unfolding live_state
here wanted i g none slots o small rest = rest
here wanted i g (some (State.pending_incoming t p c)) slots o small rest = rest
here wanted i g (some (State.established n p)) slots o small rest =
    elim (Bool-cases (n == wanted)) [ inl e ↦ rw e answered | inr e ↦ rw e rest ]
here wanted i g (some (State.pending_outgoing t n c)) slots o small rest =
    elim (Bool-cases (n == wanted)) [
      | inl e ↦
          let same : n ≡ wanted = (==_iff n wanted).0 e in
          let self = ==_self g in
          rw e (
            waiting _ 0 (omega arith)
              (record { channel_type = t; local = c; state = rw (self, same) refl }))
      | inr e ↦ rw e rest
    ]

pub locate_slot-Located :
    (wanted : LocalNumber) (i : ℕ) (slots : List Slot)
    → i + length slots ≤ 2 ^ 32
    → Located wanted i slots (locate_slot wanted i slots)
unfolding locate_slot
locate_slot-Located wanted i [] small = nowhere
locate_slot-Located wanted i (slot ∷ slots) small =
    here wanted i slot.generation slot.state slots (locate_slot wanted (i + 1) slots) (omega arith)
      (later wanted i slot slots _ (locate_slot-Located wanted (i + 1) slots (omega arith)))

-- What `locate_reply` answers: one of our requests that waits under that number, a cancelled one,
-- or a violation.
pub data Found (recipient : ℕ) (e : OpeningEngine) : Result Violation ReplyTarget → Type 0 where
  found_pending :
      (h : ChannelHandle) (channel_type : Bytes) (local : Credit)
      → get e h ≡ some (State.pending_outgoing channel_type recipient local)
      → Found recipient e (ok (ReplyTarget.pending h))
  found_tombstone :
      contains_number recipient e.tombstones ≡ true
      → Found recipient e (ok (ReplyTarget.tombstone recipient))
  found_nothing : (v : Violation) → Found recipient e (err v)

pub locate_other-Found :
    (recipient : ℕ) (e : OpeningEngine) → Found recipient e (locate_other recipient e)
unfolding locate_other
locate_other-Found recipient e =
    if_elim (Found recipient e) (contains_number recipient e.tombstones)
      (ok (ReplyTarget.tombstone recipient))
      (if any_asks_from recipient e.slots && leb e.next_local recipient
        then err (Violation.reply_to_incoming recipient)
        else err (Violation.unknown_recipient recipient))
      found_tombstone
      (λ _.
        if_elim (Found recipient e) (any_asks_from recipient e.slots && leb e.next_local recipient)
          (err (Violation.reply_to_incoming recipient))
          (err (Violation.unknown_recipient recipient)) (λ _. found_nothing _)
          (λ _. found_nothing _))

pub locate_reply-Found :
    (recipient : ℕ) (e : OpeningEngine) → IsValid e → Found recipient e (locate_reply recipient e)
unfolding locate_reply get
locate_reply-Found recipient e inv =
    go (locate_slot recipient 0 e.slots)
      (locate_slot-Located recipient 0 e.slots (omega (arith, inv.table.slots_u32)))
  where
    go :
        (o : Option (Result Violation ReplyTarget))
        → Located recipient 0 e.slots o
        → Found recipient e (elim o [ some r ↦ r | none ↦ locate_other recipient e ])
    go _ nowhere = locate_other-Found recipient e
    go _ (waiting h k at w) = found_pending h w.channel_type w.local (
        subst
          (λ k.
            live_state h (get_elem? e.slots k)
            ≡ some (State.pending_outgoing w.channel_type recipient w.local))
          {x = k} {y = h.index} (omega arith) w.state)
    go _ answered = found_nothing _

pub peer-once :
    (p q before : ℕ) {after : ℕ}
    → after + 0 ≡ before + one_at p q
    → before ≤ 1
    → (p ≡ q → before ≡ 0)
    → after ≤ 1
peer-once p q before sum small alone = elim (one_at-cases p q) [
  | inl (same, one) ↦ omega (arith, alone same)
  | inr (other, nil) ↦ omega arith
]

-- The pending slot of a confirmation becomes an established one with a new number of the peer's.
confirm_state-Kept :
    (msg : ChannelOpenConfirmation) (h : ChannelHandle) (t : Bytes) (n : LocalNumber) (c : Credit)
    (e : OpeningEngine)
    → IsValid e
    → peer_in msg.sender_channel e.slots ≡ false
    → get e h ≡ some (State.pending_outgoing t n c)
    → Kept (confirm_state msg h (some (State.pending_outgoing t n c)) e)
unfolding confirm_state set_slot get
confirm_state-Kept msg h t n c e inv new_peer eq =
    let cha =
      set_slot-Changed h (State.pending_outgoing t n c) (State.established n msg.sender_channel)
        e.limits.max_channels e.live e.free e.slots inv.table eq in
    let out = cha.totals w_outgoing in
    let inc = cha.totals w_incoming in
    let nobody = peer_in-total msg.sender_channel e.slots new_peer in
    kept (record {
      table = cha.kept;
      counts = record {
        outgoing_count = omega (arith, inv.counts.outgoing_count);
        incoming_count = omega (arith, inv.counts.incoming_count);
        outgoing_bound = omega (arith, inv.counts.outgoing_bound);
        incoming_bound = inv.counts.incoming_bound;
      };
      numbers =
          numbers-le e.next_local e.numbers_exhausted e.slots _ e.tombstones _ inv.numbers
            (λ m. omega (arith, cha.totals (w_local m)));
      tombstone_bound = inv.tombstone_bound;
      peers_unique = λ q.
          peer-once msg.sender_channel q (total (w_peer q) e.slots) (cha.totals (w_peer q))
            (inv.peers_unique q) (λ same. subst (λ p. total (w_peer p) e.slots ≡ 0) same nobody);
    })

-- A consumed tombstone.
pub consume-IsValid :
    (n : LocalNumber) (e : OpeningEngine)
    → IsValid e
    → IsValid (consume_reply (ReplyTarget.tombstone n) e)
unfolding consume_reply
consume-IsValid n e inv = record {
  table = inv.table;
  counts = inv.counts;
  numbers =
      numbers-le e.next_local e.numbers_exhausted e.slots _ e.tombstones _ inv.numbers
        (λ m. omega (arith, occ-remove_first m n e.tombstones));
  tombstone_bound = omega (arith, inv.tombstone_bound, length-remove_first n e.tombstones);
  peers_unique = inv.peers_unique;
}

-- The answer on a located target, where the peer's number is new.
confirm_located-new :
    (msg : ChannelOpenConfirmation) (target : ReplyTarget) (e : OpeningEngine)
    → IsValid e
    → (peer_in msg.sender_channel e.slots ≡ false
        → Kept (confirm_target msg target (consume_reply target e)))
    → Kept (confirm_located msg (ok target) e)
unfolding confirm_located peer_number_in_use
confirm_located-new msg target e inv f =
    if_elim Kept (peer_in msg.sender_channel e.slots)
      (fail (violation (Violation.duplicate_peer_number msg.sender_channel)) e)
      (confirm_target msg target (consume_reply target e)) (λ _. kept inv) f

confirm_located-Kept :
    (msg : ChannelOpenConfirmation) (r : Result Violation ReplyTarget) (e : OpeningEngine)
    → IsValid e
    → Found msg.recipient_channel e r
    → Kept (confirm_located msg r e)
unfolding confirm_located confirm_target consume_reply
confirm_located-Kept msg _ e inv (found_nothing v) = kept inv
confirm_located-Kept msg _ e inv (found_tombstone here) =
    confirm_located-new msg (ReplyTarget.tombstone msg.recipient_channel) e inv
      (λ _. kept (consume-IsValid msg.recipient_channel e inv))
confirm_located-Kept msg _ e inv (found_pending h t c eq) =
    confirm_located-new msg (ReplyTarget.pending h) e inv
      (λ new_peer. rw eq (confirm_state-Kept msg h t msg.recipient_channel c e inv new_peer eq))

-- `handle_open_confirmation` keeps the invariant of the engine, on every outcome.
pub handle_open_confirmation-Kept :
    (msg : ChannelOpenConfirmation) (e : OpeningEngine)
    → IsValid e
    → Kept (handle_open_confirmation msg e)
unfolding handle_open_confirmation
handle_open_confirmation-Kept msg e inv =
    confirm_located-Kept msg (locate_reply msg.recipient_channel e) e inv
      (locate_reply-Found msg.recipient_channel e inv)
