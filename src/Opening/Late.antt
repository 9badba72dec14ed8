-- ===== src/Opening/Late.antt =====
-- crates/tatami_ssh_connection/src/opening.rs: a reply to a request that was cancelled.
use tatami_ssh.Prelude.{
  ℕ, zero, suc, ◌+◌, ◌-◌, ◌≤◌, ◌≡◌, arith, refl, true, Option, none, some, Bytes, List, [], ◌∷◌,
  ◌++◌, ok, done, length, length-append, drop, ==_self,
}
use tatami_ssh.Opening.Types.{
  LocalNumber, ChannelHandle, Credit, ReplyTarget, State, Slot, OpeningEngine,
}
use tatami_ssh.Opening.Engine.{get, remove, cancel, cancel_state, bury}
use tatami_ssh.Opening.Peer.{classify, locate_slot, locate_other, locate_reply, contains_number}
use tatami_ssh.Opening.Totals.{total}
use tatami_ssh.Opening.Vacate.{remove-Removed}
use tatami_ssh.Opening.Inv.{IsValid, w_local}
use tatami_ssh.Opening.Numbers.{one_at_self}

classify-none :
    (n : LocalNumber) (h : ChannelHandle) (s : Option State)
    → w_local n s ≡ 0
    → classify n h s ≡ none
classify-none n h none e = refl
classify-none n h (some (State.pending_incoming t p c)) e = refl
classify-none n h (some (State.pending_outgoing t m c)) e = ground arith
classify-none n h (some (State.established m p)) e = ground arith

-- No slot that holds the number, no slot that decides.
locate_slot-none :
    (n : LocalNumber) (i : ℕ) (slots : List Slot)
    → total (w_local n) slots ≡ 0
    → locate_slot n i slots ≡ none
unfolding locate_slot total
locate_slot-none n i [] e = refl
locate_slot-none n i (slot ∷ slots) e =
    rw (classify-none n _ slot.state (omega arith)) (locate_slot-none n (i + 1) slots (omega arith))

contains-drop :
    (n k : ℕ) (ts : List LocalNumber)
    → k ≤ length ts
    → contains_number n (drop k (ts ++ (n ∷ []))) ≡ true
unfolding contains_number
contains-drop n zero [] h = ground (arith, ==_self n)
contains-drop n zero (t ∷ ts) h =
    let rest = contains-drop n zero ts (omega arith) in ground (arith, rest)
contains-drop n (suc k) [] h = absurd (omega arith)
contains-drop n (suc k) (t ∷ ts) h = contains-drop n k ts (omega arith)

contains-bury :
    (limit n : ℕ) (ts : List LocalNumber) → 1 ≤ limit → contains_number n (bury limit n ts) ≡ true
contains-bury limit n ts h =
    let len = length-append ts (n ∷ []) in
    contains-drop n (length (ts ++ (n ∷ [])) - limit) ts (omega arith)

-- The engine after the cancellation.
abbrev abandoned : ChannelHandle → LocalNumber → OpeningEngine → OpeningEngine
abandoned h n e = record (remove h e) {
  pending_outgoing = (remove h e).pending_outgoing - 1;
  tombstones = bury (remove h e).limits.max_tombstones n (remove h e).tombstones;
}

abandoned-stale :
    (h : ChannelHandle) (t : Bytes) (n : LocalNumber) (c : Credit) (e : OpeningEngine)
    → IsValid e
    → get e h ≡ some (State.pending_outgoing t n c)
    → get (abandoned h n e) h ≡ none
unfolding get remove
abandoned-stale h t n c e inv eq =
    (remove-Removed h (State.pending_outgoing t n c) e.limits.max_channels e.live e.free e.slots
      inv.table eq).stale

abandoned-gone :
    (h : ChannelHandle) (t : Bytes) (n : LocalNumber) (c : Credit) (e : OpeningEngine)
    → IsValid e
    → get e h ≡ some (State.pending_outgoing t n c)
    → locate_slot n 0 (abandoned h n e).slots ≡ none
unfolding get remove
abandoned-gone h t n c e inv eq =
    let rem =
      remove-Removed h (State.pending_outgoing t n c) e.limits.max_channels e.live e.free e.slots
        inv.table eq in
    let sum = rem.totals (w_local n) refl in
    let one = one_at_self n in locate_slot-none n 0 _ (omega (arith, inv.numbers.unique n))

-- Where at least one tombstone is kept, cancelling a pending request succeeds, the handle is stale
-- from there on, and a reply under its number is then classified as late, not as a violation.
pub cancel-late :
    (h : ChannelHandle) (t : Bytes) (n : LocalNumber) (c : Credit) (e : OpeningEngine)
    → IsValid e
    → get e h ≡ some (State.pending_outgoing t n c)
    → 1 ≤ e.limits.max_tombstones
    → (e' : OpeningEngine) × (cancel h e ≡ done tt e')
      × (get e' h ≡ none)
      × (locate_reply n e' ≡ ok (ReplyTarget.tombstone n))
unfolding cancel cancel_state remove locate_reply
cancel-late h t n c e inv eq keeps =
    let gone = abandoned-gone h t n c e inv eq in
    let buried = contains-bury e.limits.max_tombstones n e.tombstones keeps in
    (
      abandoned h n e,
      rw eq refl,
      abandoned-stale h t n c e inv eq,
      rw (gone, locate_reply) (rw (buried, locate_other) refl),
    )
