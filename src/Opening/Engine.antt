-- ===== src/Opening/Engine.antt =====
-- crates/tatami_ssh_connection/src/opening.rs: the methods of `OpeningEngine`. A method with
-- `&mut self` is a function of the engine to an `Outcome`, with the engine as the method leaves it.
-- `self.x -= 1` is `-` on ℕ.
use tatami_ssh.Prelude.{
  ℕ, zero, suc, ◌+◌, ◌-◌, ◌%◌, ◌^◌, true, false, Option, none, some, List, [], ◌∷◌, ◌++◌, Bytes,
  Outcome, done, fail, and_then, leb, ltb, ◌==◌, if◌then◌else◌, length, get_elem?, drop, codes,
}
use tatami_ssh.Wire.Channel.{resource_shortage}
use tatami_ssh.Opening.Types.{
  LocalNumber, PeerNumber, ChannelHandle, Credit, OpeningLimits, OpenParams, AcceptParams, Phase,
  Event, Outgoing, OpenError, HandleError, State, Slot, OpeningEngine, state_phase, stale,
  wrong_phase,
}

abbrev pub default_limits : OpeningLimits
default_limits = record {
  max_pending_outgoing = 16;
  max_pending_incoming = 16;
  max_channels = 256;
  max_tombstones = 64;
}

unfoldable pub new : OpeningLimits → OpeningEngine
new limits = record {
  limits = limits;
  slots = [];
  free = [];
  next_local = 0;
  numbers_exhausted = false;
  tombstones = [];
  outgoing = [];
  pending_outgoing = 0;
  pending_incoming = 0;
  live = 0;
}

unfoldable pub next_outgoing : OpeningEngine → Option Outgoing × OpeningEngine
next_outgoing e = elim e.outgoing [ [] ↦ (none, e) | m ∷ ms ↦ (some m, record e { outgoing = ms }) ]

unfoldable pub live_channels : OpeningEngine → ℕ
live_channels e = e.live

-- The part of `get` behind the indexing.
unfoldable pub live_state : ChannelHandle → Option Slot → Option State
live_state h none = none
live_state h (some slot) = if slot.generation == h.generation then slot.state else none

unfoldable pub get : OpeningEngine → ChannelHandle → Option State
unfolding live_state
get e h = live_state h (get_elem? e.slots h.index)

unfoldable pub phase : OpeningEngine → ChannelHandle → Option Phase
unfolding get
phase e h = elim (get e h) [ none ↦ none | some s ↦ some (state_phase s) ]

-- `f` on the slot at an index. Out of range the source panics; nothing is changed here.
unfoldable pub update_at : (Slot → Slot) → ℕ → List Slot → List Slot
update_at f i [] = []
update_at f zero (slot ∷ slots) = f slot ∷ slots
update_at f (suc i) (slot ∷ slots) = slot ∷ update_at f i slots

abbrev pub filled : State → Slot → Slot
filled s slot = record slot { state = some s }

-- The generation wraps.
abbrev pub vacated : Slot → Slot
vacated slot = record { generation = (slot.generation + 1) % 2 ^ 32; state = none }

unfoldable pub set_slot : ChannelHandle → State → OpeningEngine → OpeningEngine
set_slot h s e = record e { slots = update_at (filled s) h.index e.slots }

unfoldable pub remove : ChannelHandle → OpeningEngine → OpeningEngine
remove h e = record e {
  slots = update_at vacated h.index e.slots;
  free = h.index ∷ e.free;
  live = e.live - 1;
}

-- The generation of the slot at an index (0 where the source panics).
abbrev pub generation_at : List Slot → ℕ → ℕ
generation_at slots i = elim (get_elem? slots i) [ none ↦ 0 | some slot ↦ slot.generation ]

-- The handle, the free stack and the slots that `insert` leaves.
unfoldable pub insert_slots : State → List ℕ → List Slot → ChannelHandle × List ℕ × List Slot
insert_slots s (index ∷ rest) slots = (
  record { index = index; generation = generation_at slots index },
  rest,
  update_at (filled s) index slots,
)
insert_slots s [] slots = (
  record { index = length slots % 2 ^ 32; generation = 0 },
  [],
  slots ++ (record { generation = 0; state = some s } ∷ []),
)

unfoldable pub insert : State → OpeningEngine → ChannelHandle × OpeningEngine
unfolding insert_slots
insert s e =
    let (h, free', slots') = insert_slots s e.free e.slots in
    (h, record e { live = e.live + 1; free = free'; slots = slots' })

abbrev pub u32_max : ℕ
u32_max = 2 ^ 32 - 1

unfoldable pub allocate_number : OpeningEngine → Outcome OpeningEngine OpenError LocalNumber
allocate_number e =
    if e.numbers_exhausted
    then fail OpenError.numbers_exhausted e
    else if ltb e.next_local u32_max
    then done e.next_local (record e { next_local = e.next_local + 1 })
    else done e.next_local (record e { numbers_exhausted = true })

-- `self.outgoing.push_back`.
abbrev pub send : Outgoing → OpeningEngine → OpeningEngine
send m e = record e { outgoing = e.outgoing ++ (m ∷ []) }

-- The part of `open` behind the allocation.
unfoldable pub open_allocated :
    OpenParams → LocalNumber → OpeningEngine → Outcome OpeningEngine OpenError ChannelHandle
open_allocated params n e =
    let (handle, e') = insert (State.pending_outgoing params.channel_type n params.local) e in
    done handle (
      send (Outgoing.open_channel params.channel_type n params.local params.type_specific)
        (record e' { pending_outgoing = e'.pending_outgoing + 1 }))

unfoldable pub open_channel :
    OpenParams → OpeningEngine → Outcome OpeningEngine OpenError ChannelHandle
unfolding open_allocated
open_channel params e =
    if leb e.limits.max_pending_outgoing e.pending_outgoing
    then fail OpenError.too_many_pending_outgoing e
    else if leb e.limits.max_channels e.live
    then fail OpenError.too_many_channels e
    else and_then (allocate_number e) (open_allocated params)

-- Push at the back, then drop from the front down to the limit.
abbrev pub bury : ℕ → LocalNumber → List LocalNumber → List LocalNumber
bury limit n tombstones = let all = tombstones ++ (n ∷ []) in drop (length all - limit) all

-- `cancel` on the state that the handle refers to.
unfoldable pub cancel_state :
    ChannelHandle → Option State → OpeningEngine → Outcome OpeningEngine HandleError (Unit {0})
cancel_state h none e = fail stale e
cancel_state h (some (State.pending_outgoing _ n _)) e =
    let e' = remove h e in
    done tt (record e' {
      pending_outgoing = e'.pending_outgoing - 1;
      tombstones = bury e'.limits.max_tombstones n e'.tombstones;
    })
cancel_state h (some (State.pending_incoming t p c)) e = fail (wrong_phase Phase.pending_incoming) e
cancel_state h (some (State.established n p)) e = fail (wrong_phase Phase.established) e

unfoldable pub cancel : ChannelHandle → OpeningEngine → Outcome OpeningEngine HandleError (Unit {0})
unfolding cancel_state
cancel h e = cancel_state h (get e h) e

unfoldable pub refuse_with : ChannelHandle → PeerNumber → ℕ → Bytes → OpeningEngine → OpeningEngine
refuse_with h peer_number reason_code description e =
    let e' = remove h e in
    send (Outgoing.open_failure peer_number reason_code description [])
      (record e' { pending_incoming = e'.pending_incoming - 1 })

-- `refuse` on the state that the handle refers to.
unfoldable pub refuse_state :
    ChannelHandle
    → ℕ
    → Bytes
    → Option State
    → OpeningEngine
    → Outcome OpeningEngine HandleError (Unit {0})
refuse_state h reason_code description none e = fail stale e
refuse_state h reason_code description (some (State.pending_incoming _ p _)) e =
    done tt (refuse_with h p reason_code description e)
refuse_state h reason_code description (some (State.pending_outgoing t n c)) e =
    fail (wrong_phase Phase.pending_outgoing) e
refuse_state h reason_code description (some (State.established n p)) e =
    fail (wrong_phase Phase.established) e

unfoldable pub refuse :
    ChannelHandle → ℕ → Bytes → OpeningEngine → Outcome OpeningEngine HandleError (Unit {0})
unfolding refuse_state refuse_with
refuse h reason_code description e = refuse_state h reason_code description (get e h) e

-- The part of `accept` behind the allocation, on its success.
unfoldable pub accept_number :
    ChannelHandle
    → AcceptParams
    → Bytes
    → PeerNumber
    → Credit
    → LocalNumber
    → OpeningEngine
    → Outcome OpeningEngine HandleError Event
accept_number h params channel_type p peer n e =
    let e' = set_slot h (State.established n p) e in
    done (Event.established h channel_type n p params.local peer []) (
      send (Outgoing.open_confirmation p n params.local params.type_specific)
        (record e' { pending_incoming = e'.pending_incoming - 1 }))

-- The two arms on the allocated number.
unfoldable pub accept_allocated :
    ChannelHandle
    → AcceptParams
    → Bytes
    → PeerNumber
    → Credit
    → Outcome OpeningEngine OpenError LocalNumber
    → Outcome OpeningEngine HandleError Event
accept_allocated h params channel_type p peer (done n e) =
    accept_number h params channel_type p peer n e
accept_allocated h params channel_type p peer (fail _ e) =
    fail stale (refuse_with h p resource_shortage (codes "channel numbers exhausted") e)

-- `accept` on the state that the handle refers to.
unfoldable pub accept_state :
    ChannelHandle
    → AcceptParams
    → Option State
    → OpeningEngine
    → Outcome OpeningEngine HandleError Event
accept_state h params none e = fail stale e
accept_state h params (some (State.pending_incoming t p c)) e =
    accept_allocated h params t p c (allocate_number e)
accept_state h params (some (State.pending_outgoing t n c)) e =
    fail (wrong_phase Phase.pending_outgoing) e
accept_state h params (some (State.established n p)) e = fail (wrong_phase Phase.established) e

unfoldable pub accept :
    ChannelHandle → AcceptParams → OpeningEngine → Outcome OpeningEngine HandleError Event
unfolding accept_state accept_allocated accept_number
accept h params e = accept_state h params (get e h) e

-- The three changes of the loop of `transport_lost` at a slot, on the state that it takes.
abbrev pub lost_free : ℕ → Option State → List ℕ → List ℕ
lost_free i none free = free
lost_free i (some _) free = (i % 2 ^ 32) ∷ free

abbrev pub lost_slot : Option State → Slot → Slot
lost_slot none slot = slot
lost_slot (some _) slot = vacated slot

abbrev pub lost_events : ChannelHandle → Option State → List Event → List Event
lost_events h none events = events
lost_events h (some s) events = Event.transport_lost h (state_phase s) ∷ events

-- The loop of `transport_lost` from slot `i` on: the events, the slots and the free stack.
unfoldable pub lose_slots : ℕ → List Slot → List ℕ → List Event × List Slot × List ℕ
lose_slots i [] free = ([], [], free)
lose_slots i (slot ∷ slots) free =
    let (events, slots', free') = lose_slots (i + 1) slots (lost_free i slot.state free) in
    let h : ChannelHandle = record { index = i % 2 ^ 32; generation = slot.generation } in
    (lost_events h slot.state events, lost_slot slot.state slot ∷ slots', free')

unfoldable pub transport_lost : OpeningEngine → List Event × OpeningEngine
unfolding lose_slots
transport_lost e =
    let (events, slots', free') = lose_slots 0 e.slots e.free in
    (
      events,
      record e {
        slots = slots';
        free = free';
        pending_outgoing = 0;
        pending_incoming = 0;
        live = 0;
        outgoing = [];
      },
    )
