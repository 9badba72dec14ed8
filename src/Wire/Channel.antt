-- ===== src/Wire/Channel.antt =====
-- crates/tatami_ssh_wire/src/channel.rs: the channel-opening messages. `x_fields` and `x_writes` are the
-- bodies of `X::decode` and `X::encode` between their first and last line. The type-specific tail of
-- a message is whatever the fixed fields leave of the payload.
pub mod Codec
pub mod Strict
use tatami_ssh.Prelude.{ℕ, Bool, Bytes, Result, Outcome, ◌>>=◌, ◌>>◌, pure, done}
use tatami_ssh.Wire.Error.{EncodeError, MessageError}
use tatami_ssh.Wire.Msg
use tatami_ssh.Wire.Reader.{read_bool, read_u32, read_string, remaining}
use tatami_ssh.Wire.Writer.{Write, write_u8, write_bool, write_u32, write_string, write_bytes}
use tatami_ssh.Wire.Message.{Parser, expect_message, field, finish, decode, encode}

pub record ChannelOpen : Type 0 where
  pub channel_type : Bytes
  pub sender_channel : ℕ
  pub initial_window_size : ℕ
  pub maximum_packet_size : ℕ
  pub type_specific : Bytes

pub channel_open_fields : Parser ChannelOpen
channel_open_fields = do
  expect_message Msg.channel_open
  channel_type ← field "channel_type" read_string
  sender_channel ← field "sender_channel" read_u32
  initial_window_size ← field "initial_window_size" read_u32
  maximum_packet_size ← field "maximum_packet_size" read_u32
  λ r.
      done
        (record {
          channel_type = channel_type;
          sender_channel = sender_channel;
          initial_window_size = initial_window_size;
          maximum_packet_size = maximum_packet_size;
          type_specific = remaining r;
        })
        r

unfoldable pub channel_open_decode : Bytes → Result MessageError ChannelOpen
unfolding channel_open_fields
channel_open_decode = decode channel_open_fields

pub channel_open_writes : ChannelOpen → Write
channel_open_writes m = do
  write_u8 Msg.channel_open
  write_string m.channel_type
  write_u32 m.sender_channel
  write_u32 m.initial_window_size
  write_u32 m.maximum_packet_size
  write_bytes m.type_specific

unfoldable pub channel_open_encode : ChannelOpen → Bytes → Outcome Bytes EncodeError ℕ
unfolding channel_open_writes
channel_open_encode m = encode (channel_open_writes m)

pub record ChannelOpenConfirmation : Type 0 where
  pub recipient_channel : ℕ
  pub sender_channel : ℕ
  pub initial_window_size : ℕ
  pub maximum_packet_size : ℕ
  pub type_specific : Bytes

pub channel_open_confirmation_fields : Parser ChannelOpenConfirmation
channel_open_confirmation_fields = do
  expect_message Msg.channel_open_confirmation
  recipient_channel ← field "recipient_channel" read_u32
  sender_channel ← field "sender_channel" read_u32
  initial_window_size ← field "initial_window_size" read_u32
  maximum_packet_size ← field "maximum_packet_size" read_u32
  λ r.
      done
        (record {
          recipient_channel = recipient_channel;
          sender_channel = sender_channel;
          initial_window_size = initial_window_size;
          maximum_packet_size = maximum_packet_size;
          type_specific = remaining r;
        })
        r

unfoldable pub channel_open_confirmation_decode :
    Bytes → Result MessageError ChannelOpenConfirmation
unfolding channel_open_confirmation_fields
channel_open_confirmation_decode = decode channel_open_confirmation_fields

pub channel_open_confirmation_writes : ChannelOpenConfirmation → Write
channel_open_confirmation_writes m = do
  write_u8 Msg.channel_open_confirmation
  write_u32 m.recipient_channel
  write_u32 m.sender_channel
  write_u32 m.initial_window_size
  write_u32 m.maximum_packet_size
  write_bytes m.type_specific

unfoldable pub channel_open_confirmation_encode :
    ChannelOpenConfirmation → Bytes → Outcome Bytes EncodeError ℕ
unfolding channel_open_confirmation_writes
channel_open_confirmation_encode m = encode (channel_open_confirmation_writes m)

pub record ChannelOpenFailure : Type 0 where
  pub recipient_channel : ℕ
  pub reason_code : ℕ
  pub description : Bytes
  pub language_tag : Bytes

pub channel_open_failure_fields : Parser ChannelOpenFailure
channel_open_failure_fields = do
  expect_message Msg.channel_open_failure
  recipient_channel ← field "recipient_channel" read_u32
  reason_code ← field "reason_code" read_u32
  description ← field "description" read_string
  language_tag ← field "language_tag" read_string
  finish
  pure (record {
    recipient_channel = recipient_channel;
    reason_code = reason_code;
    description = description;
    language_tag = language_tag;
  })

unfoldable pub channel_open_failure_decode : Bytes → Result MessageError ChannelOpenFailure
unfolding channel_open_failure_fields
channel_open_failure_decode = decode channel_open_failure_fields

pub channel_open_failure_writes : ChannelOpenFailure → Write
channel_open_failure_writes m = do
  write_u8 Msg.channel_open_failure
  write_u32 m.recipient_channel
  write_u32 m.reason_code
  write_string m.description
  write_string m.language_tag

unfoldable pub channel_open_failure_encode :
    ChannelOpenFailure → Bytes → Outcome Bytes EncodeError ℕ
unfolding channel_open_failure_writes
channel_open_failure_encode m = encode (channel_open_failure_writes m)

-- `open_failure_reason::RESOURCE_SHORTAGE`.
abbrev pub resource_shortage : ℕ
resource_shortage = 4
