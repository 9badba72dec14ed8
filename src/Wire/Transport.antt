-- ===== src/Wire/Transport.antt =====
-- crates/tatami_ssh_wire/src/transport.rs: the generic transport messages and the service
-- negotiation. `x_fields` and `x_writes` are the bodies of `X::decode` and `X::encode` between
-- their first and last line. The reasons are in `DisconnectReason`.
pub mod Codec
pub mod Strict
use tatami_ssh.Prelude.{ℕ, Bool, Bytes, Result, Outcome, ◌>>=◌, ◌>>◌, pure}
use tatami_ssh.Wire.Error.{EncodeError, MessageError}
use tatami_ssh.Wire.Msg
use tatami_ssh.Wire.Reader.{read_bool, read_u32, read_string}
use tatami_ssh.Wire.Writer.{Write, write_u8, write_bool, write_u32, write_string}
use tatami_ssh.Wire.Message.{Parser, expect_message, field, finish, decode, encode}

pub record Disconnect : Type 0 where
  pub reason_code : ℕ
  pub description : Bytes
  pub language_tag : Bytes

pub disconnect_fields : Parser Disconnect
disconnect_fields = do
  expect_message Msg.disconnect
  reason_code ← field "reason_code" read_u32
  description ← field "description" read_string
  language_tag ← field "language_tag" read_string
  finish
  pure
      (record { reason_code = reason_code; description = description; language_tag = language_tag })

unfoldable pub disconnect_decode : Bytes → Result MessageError Disconnect
unfolding disconnect_fields
disconnect_decode = decode disconnect_fields

pub disconnect_writes : Disconnect → Write
disconnect_writes m = do
  write_u8 Msg.disconnect
  write_u32 m.reason_code
  write_string m.description
  write_string m.language_tag

unfoldable pub disconnect_encode : Disconnect → Bytes → Outcome Bytes EncodeError ℕ
unfolding disconnect_writes
disconnect_encode m = encode (disconnect_writes m)

pub record Ignore : Type 0 where
  pub contents : Bytes

pub ignore_fields : Parser Ignore
ignore_fields = do
  expect_message Msg.ignore
  contents ← field "data" read_string
  finish
  pure (record { contents = contents })

unfoldable pub ignore_decode : Bytes → Result MessageError Ignore
unfolding ignore_fields
ignore_decode = decode ignore_fields

pub ignore_writes : Ignore → Write
ignore_writes m = do write_u8 Msg.ignore; write_string m.contents

unfoldable pub ignore_encode : Ignore → Bytes → Outcome Bytes EncodeError ℕ
unfolding ignore_writes
ignore_encode m = encode (ignore_writes m)

pub record Unimplemented : Type 0 where
  pub sequence_number : ℕ

pub unimplemented_fields : Parser Unimplemented
unimplemented_fields = do
  expect_message Msg.unimplemented
  sequence_number ← field "sequence_number" read_u32
  finish
  pure (record { sequence_number = sequence_number })

unfoldable pub unimplemented_decode : Bytes → Result MessageError Unimplemented
unfolding unimplemented_fields
unimplemented_decode = decode unimplemented_fields

pub unimplemented_writes : Unimplemented → Write
unimplemented_writes m = do write_u8 Msg.unimplemented; write_u32 m.sequence_number

unfoldable pub unimplemented_encode : Unimplemented → Bytes → Outcome Bytes EncodeError ℕ
unfolding unimplemented_writes
unimplemented_encode m = encode (unimplemented_writes m)

pub record Debug : Type 0 where
  pub always_display : Bool
  pub message : Bytes
  pub language_tag : Bytes

pub debug_fields : Parser Debug
debug_fields = do
  expect_message Msg.debug
  always_display ← field "always_display" read_bool
  message ← field "message" read_string
  language_tag ← field "language_tag" read_string
  finish
  pure (record { always_display = always_display; message = message; language_tag = language_tag })

unfoldable pub debug_decode : Bytes → Result MessageError Debug
unfolding debug_fields
debug_decode = decode debug_fields

pub debug_writes : Debug → Write
debug_writes m = do
  write_u8 Msg.debug
  write_bool m.always_display
  write_string m.message
  write_string m.language_tag

unfoldable pub debug_encode : Debug → Bytes → Outcome Bytes EncodeError ℕ
unfolding debug_writes
debug_encode m = encode (debug_writes m)

pub record ServiceRequest : Type 0 where
  pub service_name : Bytes

pub service_request_fields : Parser ServiceRequest
service_request_fields = do
  expect_message Msg.service_request
  service_name ← field "service_name" read_string
  finish
  pure (record { service_name = service_name })

unfoldable pub service_request_decode : Bytes → Result MessageError ServiceRequest
unfolding service_request_fields
service_request_decode = decode service_request_fields

pub service_request_writes : ServiceRequest → Write
service_request_writes m = do write_u8 Msg.service_request; write_string m.service_name

unfoldable pub service_request_encode : ServiceRequest → Bytes → Outcome Bytes EncodeError ℕ
unfolding service_request_writes
service_request_encode m = encode (service_request_writes m)

pub record ServiceAccept : Type 0 where
  pub service_name : Bytes

pub service_accept_fields : Parser ServiceAccept
service_accept_fields = do
  expect_message Msg.service_accept
  service_name ← field "service_name" read_string
  finish
  pure (record { service_name = service_name })

unfoldable pub service_accept_decode : Bytes → Result MessageError ServiceAccept
unfolding service_accept_fields
service_accept_decode = decode service_accept_fields

pub service_accept_writes : ServiceAccept → Write
service_accept_writes m = do write_u8 Msg.service_accept; write_string m.service_name

unfoldable pub service_accept_encode : ServiceAccept → Bytes → Outcome Bytes EncodeError ℕ
unfolding service_accept_writes
service_accept_encode m = encode (service_accept_writes m)
