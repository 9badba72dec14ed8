-- ===== src/Opening/Behaviour.antt =====
-- crates/tatami_ssh_connection/src/opening.rs: the errors of the message handlers.
use tatami_ssh.Prelude.{
  Unchanged, failing, passing, ◌≢◌, ◌||◌, Option, none, some, Result, ok, err, Outcome, done, fail,
  result, if_elim, leb,
}
use tatami_ssh.Wire.Channel.{ChannelOpen, ChannelOpenConfirmation, ChannelOpenFailure}
use tatami_ssh.Opening.Types.{ChannelHandle, Violation, ReplyTarget, State, OpeningEngine}
use tatami_ssh.Opening.Engine.{get}
use tatami_ssh.Opening.Peer.{
  Raised, violation, panic, peer_number_in_use, locate_reply, consume_reply, handle_open,
  handle_open_confirmation, confirm_located, confirm_target, confirm_state, fail_target,
  fail_located, handle_open_failure,
}
use tatami_ssh.Opening.Inv.{IsValid}
use tatami_ssh.Opening.Replies.{
  Found, found_pending, found_tombstone, found_nothing, locate_reply-Found,
}

handle_open-Unchanged : (msg : ChannelOpen) (e : OpeningEngine) → Unchanged e (handle_open msg e)
unfolding handle_open
handle_open-Unchanged msg e =
    if_elim (Unchanged e) (peer_number_in_use msg.sender_channel e) _ _ (λ _. failing _)
      (λ _.
        if_elim (Unchanged e)
          (leb e.limits.max_pending_incoming e.pending_incoming || leb e.limits.max_channels e.live)
          _ _ (λ _. passing _ _) (λ _. passing _ _))

confirm_state-Unchanged :
    (msg : ChannelOpenConfirmation) (h : ChannelHandle) (o : Option State) (e : OpeningEngine)
    → Unchanged e (confirm_state msg h o e)
unfolding confirm_state
confirm_state-Unchanged msg h none e = failing _
confirm_state-Unchanged msg h (some (State.pending_incoming t p c)) e = failing _
confirm_state-Unchanged msg h (some (State.established n p)) e = failing _
confirm_state-Unchanged msg h (some (State.pending_outgoing t n c)) e = passing _ _

confirm_located-Unchanged :
    (msg : ChannelOpenConfirmation) (r : Result Violation ReplyTarget) (e : OpeningEngine)
    → Unchanged e (confirm_located msg r e)
unfolding confirm_located confirm_target consume_reply
confirm_located-Unchanged msg (err v) e = failing _
confirm_located-Unchanged msg (ok (ReplyTarget.pending h)) e =
    if_elim (Unchanged e) (peer_number_in_use msg.sender_channel e) _
      (confirm_state msg h (get e h) e) (λ _. failing _)
      (λ _. confirm_state-Unchanged msg h (get e h) e)
confirm_located-Unchanged msg (ok (ReplyTarget.tombstone n)) e =
    if_elim (Unchanged e) (peer_number_in_use msg.sender_channel e) _
      (confirm_target msg (ReplyTarget.tombstone n) (consume_reply (ReplyTarget.tombstone n) e))
      (λ _. failing _) (λ _. passing _ _)

fail_located-Unchanged :
    (msg : ChannelOpenFailure) (r : Result Violation ReplyTarget) (e : OpeningEngine)
    → Unchanged e (fail_located msg r e)
unfolding fail_located fail_target
fail_located-Unchanged msg (err v) e = failing _
fail_located-Unchanged msg (ok (ReplyTarget.pending h)) e = passing _ _
fail_located-Unchanged msg (ok (ReplyTarget.tombstone n)) e = passing _ _

-- Each of the three message handlers that reports a violation leaves the engine unchanged.
pub violation-Unchanged :
    (opened : ChannelOpen) (confirmed : ChannelOpenConfirmation) (refused : ChannelOpenFailure)
    (e : OpeningEngine)
    → Unchanged e (handle_open opened e)
      × Unchanged e (handle_open_confirmation confirmed e)
      × Unchanged e (handle_open_failure refused e)
unfolding handle_open_confirmation handle_open_failure
violation-Unchanged opened confirmed refused e = (
  handle_open-Unchanged opened e,
  confirm_located-Unchanged confirmed (locate_reply confirmed.recipient_channel e) e,
  fail_located-Unchanged refused (locate_reply refused.recipient_channel e) e,
)

-- An outcome other than the panic.
pub record Calm {κ} {A : Type κ} (o : Outcome OpeningEngine Raised A) : Type κ where
  pub not_panic : result o ≢ err panic

Calm-violation {κ} :
    {A : Type κ} {v : Violation} {e : OpeningEngine} → Calm {A = A} (fail (violation v) e)
Calm-violation = record { not_panic = λ eq. cc }

Calm-done {κ} : {A : Type κ} {a : A} {e : OpeningEngine} → Calm (done a e)
Calm-done = record { not_panic = λ eq. cc }

confirm_located-Calm :
    (msg : ChannelOpenConfirmation) (r : Result Violation ReplyTarget) (e : OpeningEngine)
    → Found msg.recipient_channel e r
    → Calm (confirm_located msg r e)
unfolding confirm_located confirm_target consume_reply confirm_state
confirm_located-Calm msg _ e (found_nothing v) = Calm-violation
confirm_located-Calm msg _ e (found_tombstone here) =
    if_elim Calm (peer_number_in_use msg.sender_channel e) _
      (confirm_target msg (ReplyTarget.tombstone msg.recipient_channel)
        (consume_reply (ReplyTarget.tombstone msg.recipient_channel) e))
      (λ _. Calm-violation) (λ _. Calm-done)
confirm_located-Calm msg _ e (found_pending h t c eq) =
    if_elim Calm (peer_number_in_use msg.sender_channel e) _ (confirm_state msg h (get e h) e)
      (λ _. Calm-violation) (λ _. rw eq Calm-done)

-- On an engine with the invariant, `handle_open_confirmation` does not reach its `unreachable!`.
pub handle_open_confirmation-Calm :
    (msg : ChannelOpenConfirmation) (e : OpeningEngine)
    → IsValid e
    → Calm (handle_open_confirmation msg e)
unfolding handle_open_confirmation
handle_open_confirmation-Calm msg e inv =
    confirm_located-Calm msg (locate_reply msg.recipient_channel e) e
      (locate_reply-Found msg.recipient_channel e inv)
