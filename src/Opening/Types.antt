-- ===== src/Opening/Types.antt =====
-- crates/tatami_ssh_connection/src/opening.rs: the data of the engine. `LocalNumber` and
-- `PeerNumber` are the numbers that they wrap.
use tatami_ssh.Prelude.{ℕ, Bool, Bytes, List, Option, Outcome}
use tatami_ssh.Wire.Error.{EncodeError}
use tatami_ssh.Wire.Channel.{
  channel_open_encode, channel_open_confirmation_encode, channel_open_failure_encode,
}

abbrev pub LocalNumber : Type 0
LocalNumber = ℕ

abbrev pub PeerNumber : Type 0
PeerNumber = ℕ

pub record ChannelHandle : Type 0 where
  pub index : ℕ
  pub generation : ℕ

pub record Credit : Type 0 where
  pub initial_window_size : ℕ
  pub maximum_packet_size : ℕ

pub record OpeningLimits : Type 0 where
  pub max_pending_outgoing : ℕ
  pub max_pending_incoming : ℕ
  pub max_channels : ℕ
  pub max_tombstones : ℕ

-- `OpenParams` and `AcceptParams`.
pub record OpenParams : Type 0 where
  pub channel_type : Bytes
  pub local : Credit
  pub type_specific : Bytes

pub record AcceptParams : Type 0 where
  pub local : Credit
  pub type_specific : Bytes

pub data Phase : Type 0 where
  pending_outgoing pending_incoming established : Phase

pub data LateReply : Type 0 where
  confirmed : (peer_number : PeerNumber) → (peer : Credit) → LateReply
  refused : (reason_code : ℕ) → LateReply

pub data Event : Type 0 where
  incoming_open :
      (handle : ChannelHandle)
      → (channel_type : Bytes) → (peer_number : PeerNumber) → (peer : Credit)
      → (type_specific : Bytes) → Event
  established :
      (handle : ChannelHandle)
      → (channel_type : Bytes) → (local_number : LocalNumber) → (peer_number : PeerNumber)
      → (local peer : Credit) → (peer_type_specific : Bytes) → Event
  refused :
      (handle : ChannelHandle) → (reason_code : ℕ) → (description language_tag : Bytes) → Event
  incoming_refused_by_limit : (peer_number : PeerNumber) → (channel_type : Bytes) → Event
  late_reply : (local_number : LocalNumber) → (reply : LateReply) → Event
  transport_lost : (handle : ChannelHandle) → (phase : Phase) → Event

pub data Outgoing : Type 0 where
  open_channel :
      (channel_type : Bytes)
      → (sender_channel : LocalNumber) → (local : Credit) → (type_specific : Bytes) → Outgoing
  open_confirmation :
      (recipient_channel : PeerNumber)
      → (sender_channel : LocalNumber) → (local : Credit) → (type_specific : Bytes) → Outgoing
  open_failure :
      (recipient_channel : PeerNumber)
      → (reason_code : ℕ) → (description language_tag : Bytes) → Outgoing

-- `Outgoing::encode`.
unfoldable pub outgoing_encode : Outgoing → Bytes → Outcome Bytes EncodeError ℕ
outgoing_encode (open_channel channel_type sender_channel local type_specific) =
    channel_open_encode (record {
      channel_type = channel_type;
      sender_channel = sender_channel;
      initial_window_size = local.initial_window_size;
      maximum_packet_size = local.maximum_packet_size;
      type_specific = type_specific;
    })
outgoing_encode (open_confirmation recipient_channel sender_channel local type_specific) =
    channel_open_confirmation_encode (record {
      recipient_channel = recipient_channel;
      sender_channel = sender_channel;
      initial_window_size = local.initial_window_size;
      maximum_packet_size = local.maximum_packet_size;
      type_specific = type_specific;
    })
outgoing_encode (open_failure recipient_channel reason_code description language_tag) =
    channel_open_failure_encode (record {
      recipient_channel = recipient_channel;
      reason_code = reason_code;
      description = description;
      language_tag = language_tag;
    })

pub data Violation : Type 0 where
  unknown_recipient : (recipient : ℕ) → Violation
  duplicate_reply : (local_number : LocalNumber) → Violation
  reply_to_incoming : (recipient : ℕ) → Violation
  duplicate_peer_number : (peer_number : PeerNumber) → Violation

pub data OpenError : Type 0 where
  too_many_pending_outgoing too_many_channels numbers_exhausted : OpenError

pub data HandleError : Type 0 where
  stale : HandleError
  wrong_phase : (actual : Phase) → HandleError

pub data State : Type 0 where
  pending_outgoing :
      (channel_type : Bytes) → (local_number : LocalNumber) → (local : Credit) → State
  pending_incoming : (channel_type : Bytes) → (peer_number : PeerNumber) → (peer : Credit) → State
  established : (local_number : LocalNumber) → (peer_number : PeerNumber) → State

-- `State::phase`.
abbrev pub state_phase : State → Phase
state_phase (pending_outgoing _ _ _) = Phase.pending_outgoing
state_phase (pending_incoming _ _ _) = Phase.pending_incoming
state_phase (established _ _) = Phase.established

pub record Slot : Type 0 where
  pub generation : ℕ
  pub state : Option State

-- `free` is a stack: the end of the vector is the head of the list.
pub record OpeningEngine : Type 0 where
  pub limits : OpeningLimits
  pub slots : List Slot
  pub free : List ℕ
  pub next_local : ℕ
  pub numbers_exhausted : Bool
  pub tombstones : List LocalNumber
  pub outgoing : List Outgoing
  pub pending_outgoing : ℕ
  pub pending_incoming : ℕ
  pub live : ℕ

pub data ReplyTarget : Type 0 where
  pending : ChannelHandle → ReplyTarget
  tombstone : LocalNumber → ReplyTarget
