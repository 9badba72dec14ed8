-- ===== src/Opening/Examples.antt =====
-- crates/tatami_ssh_connection/src/opening.rs: the theorems on concrete runs of the engine.
use tatami_ssh.Prelude.{refl, some, none, ok, done, ◌≡◌, arith, [], ◌∷◌, final, Unchanged}
use tatami_ssh.Wire.Channel.{ChannelOpen, ChannelOpenConfirmation, ChannelOpenFailure}
use tatami_ssh.Opening.Types.{ChannelHandle, OpenParams, Credit, OpeningEngine, State, ReplyTarget}
use tatami_ssh.Opening.Engine.{
  default_limits, new, open_channel, cancel, transport_lost, get, live_state, allocate_number,
  open_allocated, insert, insert_slots,
}
use tatami_ssh.Opening.Peer.{
  handle_open, handle_open_confirmation, handle_open_failure, locate_reply,
}
use tatami_ssh.Opening.Inv.{IsValid}
use tatami_ssh.Opening.Late.{cancel-late}
use tatami_ssh.Opening.Trace.{
  Reachable, fresh, opened, cancelled, asked, Reachable-IsValid, OpensOr, open_channel-OpensOr,
}
use tatami_ssh.Opening.Behaviour.{Calm, handle_open_confirmation-Calm, violation-Unchanged}
use tatami_ssh.Opening.Loss.Emptied.{Emptied, transport_lost-Emptied}

abbrev window : Credit
window = record { initial_window_size = 65536; maximum_packet_size = 32768 }

abbrev session : OpenParams
session = record { channel_type = 115 ∷ []; local = window; type_specific = [] }

abbrev first_handle : ChannelHandle
first_handle = record { index = 0; generation = 0 }

abbrev peer_opens : ChannelOpen
peer_opens = record {
  channel_type = 120 ∷ [];
  sender_channel = 9;
  initial_window_size = 4096;
  maximum_packet_size = 1024;
  type_specific = [];
}

abbrev peer_confirms : ChannelOpenConfirmation
peer_confirms = record {
  recipient_channel = 0;
  sender_channel = 10;
  initial_window_size = 4096;
  maximum_packet_size = 1024;
  type_specific = [];
}

abbrev peer_refuses : ChannelOpenFailure
peer_refuses = record {
  recipient_channel = 0;
  reason_code = 1;
  description = [];
  language_tag = [];
}

-- One request of ours, cancelled, one more, and one of the peer's.
abbrev busy : OpeningEngine
busy = final (
    handle_open peer_opens (
      final (
        open_channel session
          (final (cancel first_handle (final (open_channel session (new default_limits))))))))

busy-Reachable : Reachable default_limits busy
busy-Reachable =
    asked peer_opens _ (opened session _ (cancelled first_handle _ (opened session _ fresh)))

busy-IsValid : IsValid busy
busy-IsValid = Reachable-IsValid default_limits (omega arith) busy busy-Reachable

Reachable-IsValid_example : IsValid busy
Reachable-IsValid_example = Reachable-IsValid default_limits (omega arith) busy busy-Reachable

open_channel-OpensOr_example : OpensOr session busy (open_channel session busy)
open_channel-OpensOr_example = open_channel-OpensOr session busy busy-IsValid

handle_open_confirmation-Calm_example : Calm (handle_open_confirmation peer_confirms busy)
handle_open_confirmation-Calm_example =
    handle_open_confirmation-Calm peer_confirms busy busy-IsValid

transport_lost-Emptied_example : Emptied busy (transport_lost busy).0 (transport_lost busy).1
transport_lost-Emptied_example = transport_lost-Emptied busy busy-IsValid

violation-Unchanged_example :
    Unchanged busy (handle_open peer_opens busy)
    × Unchanged busy (handle_open_confirmation peer_confirms busy)
    × Unchanged busy (handle_open_failure peer_refuses busy)
violation-Unchanged_example = violation-Unchanged peer_opens peer_confirms peer_refuses busy

abbrev waiting_engine : OpeningEngine
waiting_engine = final (open_channel session (new default_limits))

waiting_engine-IsValid : IsValid waiting_engine
waiting_engine-IsValid =
    Reachable-IsValid default_limits (omega arith) waiting_engine (opened session _ fresh)

first_pending : get waiting_engine first_handle ≡ some (State.pending_outgoing (115 ∷ []) 0 window)
unfolding open_channel new allocate_number open_allocated insert insert_slots get live_state
first_pending = refl

cancel-late_example :
    (e' : OpeningEngine) × (cancel first_handle waiting_engine ≡ done tt e')
    × (get e' first_handle ≡ none)
    × (locate_reply 0 e' ≡ ok (ReplyTarget.tombstone 0))
unfolding open_channel new allocate_number insert
cancel-late_example =
    cancel-late first_handle (115 ∷ []) 0 window waiting_engine waiting_engine-IsValid first_pending
      (omega arith)
