-- ===== src/Opening/Loss/Emptied.antt =====
-- crates/tatami_ssh_connection/src/opening.rs: the engine that `transport_lost` leaves, and the events
-- that it returns.
use tatami_ssh.Prelude.{
  ℕ, zero, suc, ◌+◌, ◌≤◌, ◌<◌, ◌≡◌, refl, ◌^◌, ◌%◌, arith, Option, none, some, List, [], ◌∷◌,
  length, get_elem?,
}
use tatami_ssh.Opening.Types.{ChannelHandle, Event, Slot, State, OpeningEngine, state_phase}
use tatami_ssh.Opening.Engine.{
  generation_at, live_state, get, lost_free, lost_slot, lost_events, lose_slots, transport_lost,
}
use tatami_ssh.Opening.Totals.{state_at}
use tatami_ssh.Opening.Slots.{w_live}
use tatami_ssh.Opening.Inv.{IsValid}
use tatami_ssh.Opening.Loss.{transport_lost-IsValid}

-- The live slots from index `i` on, each as the event for its handle and its phase.
abbrev pub reports : ℕ → List Slot → List Event
reports i [] = []
reports i (slot ∷ slots) = elim slot.state [
  | none ↦ reports (i + 1) slots
  | some s ↦
      Event.transport_lost (record { index = i; generation = slot.generation }) (state_phase s)
      ∷ reports (i + 1) slots
]

lost_events-reports :
    (i g : ℕ) (s : Option State) (slots : List Slot) (events : List Event)
    → i < 2 ^ 32
    → events ≡ reports (i + 1) slots
    → lost_events (record { index = i % 2 ^ 32; generation = g }) s events
      ≡ reports i (record { generation = g; state = s } ∷ slots)
lost_events-reports i g none slots events small e = e
lost_events-reports i g (some s) slots events small e =
    let fits : i % 2 ^ 32 ≡ i = omega arith in rw (fits, e) refl

lose_slots-reports :
    (i : ℕ) (slots : List Slot) (free : List ℕ)
    → i + length slots ≤ 2 ^ 32
    → (lose_slots i slots free).0 ≡ reports i slots
unfolding lose_slots
lose_slots-reports i [] free small = refl
lose_slots-reports i (slot ∷ slots) free small =
    lost_events-reports i slot.generation slot.state slots _ (omega arith)
      (lose_slots-reports (i + 1) slots (lost_free i slot.state free) (omega arith))

lost_slot-empty :
    (s : Option State) (slot : Slot) → slot.state ≡ s → (lost_slot s slot).state ≡ none
lost_slot-empty none slot e = e
lost_slot-empty (some s) slot e = refl

lose_slots-empty :
    (i : ℕ) (slots : List Slot) (free : List ℕ) (k : ℕ)
    → state_at (lose_slots i slots free).1 k ≡ none
unfolding lose_slots
lose_slots-empty i [] free k = refl
lose_slots-empty i (slot ∷ slots) free zero = lost_slot-empty slot.state slot refl
lose_slots-empty i (slot ∷ slots) free (suc k) =
    lose_slots-empty (i + 1) slots (lost_free i slot.state free) k

lost_slot-bumped :
    (s : Option State) (slot : Slot)
    → slot.generation < 2 ^ 32
    → (lost_slot s slot).generation ≡ (slot.generation + w_live s) % 2 ^ 32
lost_slot-bumped none slot h = omega arith
lost_slot-bumped (some s) slot h = refl

lose_slots-bumped :
    (i : ℕ) (slots : List Slot) (free : List ℕ)
    → ((k : ℕ) → generation_at slots k < 2 ^ 32)
    → (k : ℕ)
    → generation_at (lose_slots i slots free).1 k
      ≡ (generation_at slots k + w_live (state_at slots k)) % 2 ^ 32
unfolding lose_slots
lose_slots-bumped i [] free small k = refl
lose_slots-bumped i (slot ∷ slots) free small zero = lost_slot-bumped slot.state slot (small 0)
lose_slots-bumped i (slot ∷ slots) free small (suc k) =
    lose_slots-bumped (i + 1) slots (lost_free i slot.state free) (λ m. small (suc m)) k

empty-live_state :
    (h : ChannelHandle) (slots : List Slot) (i : ℕ)
    → state_at slots i ≡ none
    → live_state h (get_elem? slots i) ≡ none
unfolding live_state
empty-live_state h [] i e = refl
empty-live_state h (slot ∷ slots) zero e = ground arith
empty-live_state h (slot ∷ slots) (suc i) e = empty-live_state h slots i e

-- What `transport_lost` makes of `e`: the events and the engine `e'`.
pub record Emptied (e : OpeningEngine) (events : List Event) (e' : OpeningEngine) : Type 0 where
  pub reported : events ≡ reports 0 e.slots
  pub all_reported : length events ≡ e.live
  pub unresolved : (h : ChannelHandle) → get e' h ≡ none
  pub bumped :
      (k : ℕ)
      → generation_at e'.slots k ≡ (generation_at e.slots k + w_live (state_at e.slots k)) % 2 ^ 32
  pub same_slots : length e'.slots ≡ length e.slots
  pub all_free : length e'.free ≡ length e.slots
  pub no_live : e'.live ≡ 0
  pub no_outgoing : e'.pending_outgoing ≡ 0
  pub no_incoming : e'.pending_incoming ≡ 0
  pub discarded : e'.outgoing ≡ []
  pub same_next : e'.next_local ≡ e.next_local
  pub same_tombstones : e'.tombstones ≡ e.tombstones
  pub valid : IsValid e'

-- On an engine with the invariant `transport_lost` returns exactly one event for each live slot, in
-- slot order, with its handle and phase, and leaves the engine empty: no handle resolves, every slot
-- is free, the generation of each slot that was live is one higher, modulo 2^32, and that of every
-- other slot stays, the three counts are 0, the queued messages are discarded, the next number and
-- the tombstones stay, and the invariant holds.
pub transport_lost-Emptied :
    (e : OpeningEngine) → IsValid e → Emptied e (transport_lost e).0 (transport_lost e).1
unfolding transport_lost get
transport_lost-Emptied e inv =
    let (valid, all, same) = transport_lost-IsValid e inv in
    record {
      reported = lose_slots-reports 0 e.slots e.free (omega (arith, inv.table.slots_u32));
      all_reported = all;
      unresolved = λ h.
          empty-live_state h (lose_slots 0 e.slots e.free).1 h.index
            (lose_slots-empty 0 e.slots e.free h.index);
      bumped = lose_slots-bumped 0 e.slots e.free inv.table.generations_u32;
      same_slots = same;
      all_free = omega (arith, valid.table.free_len, same);
      no_live = refl;
      no_outgoing = refl;
      no_incoming = refl;
      discarded = refl;
      same_next = refl;
      same_tombstones = refl;
      valid = valid;
    }
