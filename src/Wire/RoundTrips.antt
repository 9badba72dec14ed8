-- ===== src/Wire/RoundTrips.antt =====
-- Encoding a message into a large enough buffer and decoding what was written: the messages of
-- crates/tatami_ssh_wire/src/transport.rs, kex.rs and channel.rs.
use tatami_ssh.Prelude.{ℕ, ◌≤◌, ◌≡◌, Bytes, Result, ok, Outcome, done, length, take}
use tatami_ssh.Wire.Error.{EncodeError, MessageError}
use tatami_ssh.Wire.Message.Encodes.{Encoded, Encoded-decode}
use tatami_ssh.Wire.Transport.{
  Disconnect, disconnect_decode, disconnect_encode, Ignore, ignore_decode, ignore_encode,
  Unimplemented, unimplemented_decode, unimplemented_encode, Debug, debug_decode, debug_encode,
  ServiceRequest, service_request_decode, service_request_encode, ServiceAccept,
  service_accept_decode, service_accept_encode,
}
use tatami_ssh.Wire.Transport.Codec.{
  IsDisconnect, disconnect_wire, decode-disconnect_wire, disconnect-Encoded, IsIgnore, ignore_wire,
  decode-ignore_wire, ignore-Encoded, IsUnimplemented, unimplemented_wire,
  decode-unimplemented_wire, unimplemented-Encoded, IsDebug, debug_wire, decode-debug_wire,
  debug-Encoded, IsServiceRequest, service_request_wire, decode-service_request_wire,
  service_request-Encoded, IsServiceAccept, service_accept_wire, decode-service_accept_wire,
  service_accept-Encoded,
}
use tatami_ssh.Wire.Kex.{
  KexEcdhInit, kex_ecdh_init_decode, kex_ecdh_init_encode, KexEcdhReply, kex_ecdh_reply_decode,
  kex_ecdh_reply_encode,
}
use tatami_ssh.Wire.Kex.Codec.{
  IsKexEcdhInit, kex_ecdh_init_wire, decode-kex_ecdh_init_wire, kex_ecdh_init-Encoded,
  IsKexEcdhReply, kex_ecdh_reply_wire, decode-kex_ecdh_reply_wire, kex_ecdh_reply-Encoded,
}
use tatami_ssh.Wire.Channel.{
  ChannelOpen, channel_open_decode, channel_open_encode, ChannelOpenConfirmation,
  channel_open_confirmation_decode, channel_open_confirmation_encode, ChannelOpenFailure,
  channel_open_failure_decode, channel_open_failure_encode,
}
use tatami_ssh.Wire.Channel.Codec.{
  IsChannelOpen, channel_open_wire, decode-channel_open_wire, channel_open-Encoded,
  IsChannelOpenConfirmation, channel_open_confirmation_wire, decode-channel_open_confirmation_wire,
  channel_open_confirmation-Encoded, IsChannelOpenFailure, channel_open_failure_wire,
  decode-channel_open_failure_wire, channel_open_failure-Encoded,
}

-- The call succeeds, and what it wrote decodes to the message.
pub record RoundTrip {M : Type 0} (decode : Bytes → Result MessageError M) (m : M)
    (call : Outcome Bytes EncodeError ℕ) : Type 0 where
  pub n : ℕ
  pub buffer : Bytes
  pub encoded : call ≡ done n buffer
  pub decoded : decode (take n buffer) ≡ ok m

pub round_trip :
    {M : Type 0} (decode : Bytes → Result MessageError M) (m : M)
    (call : Outcome Bytes EncodeError ℕ) (out wire : Bytes)
    → decode wire ≡ ok m
    → Encoded call out wire
    → RoundTrip decode m call
round_trip decode m call out wire e d = record {
  n = length wire;
  buffer = d.buffer;
  encoded = d.succeeded;
  decoded = Encoded-decode decode call out wire m e d;
}

-- A `Disconnect` whose fields fit the wire encodes into every buffer that has room for it, and
-- decoding the bytes that were written gives the same message.
pub disconnect_encode-decode :
    (m : Disconnect) (out : Bytes)
    → IsDisconnect m
    → length (disconnect_wire m) ≤ length out
    → RoundTrip disconnect_decode m (disconnect_encode m out)
disconnect_encode-decode m out fits room =
    round_trip disconnect_decode m (disconnect_encode m out) out (disconnect_wire m)
      (decode-disconnect_wire m fits) (disconnect-Encoded m out fits room)

-- A `Ignore` whose fields fit the wire encodes into every buffer that has room for it, and
-- decoding the bytes that were written gives the same message.
pub ignore_encode-decode :
    (m : Ignore) (out : Bytes)
    → IsIgnore m
    → length (ignore_wire m) ≤ length out
    → RoundTrip ignore_decode m (ignore_encode m out)
ignore_encode-decode m out fits room =
    round_trip ignore_decode m (ignore_encode m out) out (ignore_wire m) (decode-ignore_wire m fits)
      (ignore-Encoded m out fits room)

-- A `Unimplemented` whose fields fit the wire encodes into every buffer that has room for it, and
-- decoding the bytes that were written gives the same message.
pub unimplemented_encode-decode :
    (m : Unimplemented) (out : Bytes)
    → IsUnimplemented m
    → length (unimplemented_wire m) ≤ length out
    → RoundTrip unimplemented_decode m (unimplemented_encode m out)
unimplemented_encode-decode m out fits room =
    round_trip unimplemented_decode m (unimplemented_encode m out) out (unimplemented_wire m)
      (decode-unimplemented_wire m fits) (unimplemented-Encoded m out fits room)

-- A `Debug` whose fields fit the wire encodes into every buffer that has room for it, and
-- decoding the bytes that were written gives the same message.
pub debug_encode-decode :
    (m : Debug) (out : Bytes)
    → IsDebug m
    → length (debug_wire m) ≤ length out
    → RoundTrip debug_decode m (debug_encode m out)
debug_encode-decode m out fits room =
    round_trip debug_decode m (debug_encode m out) out (debug_wire m) (decode-debug_wire m fits)
      (debug-Encoded m out fits room)

-- A `ServiceRequest` whose fields fit the wire encodes into every buffer that has room for it, and
-- decoding the bytes that were written gives the same message.
pub service_request_encode-decode :
    (m : ServiceRequest) (out : Bytes)
    → IsServiceRequest m
    → length (service_request_wire m) ≤ length out
    → RoundTrip service_request_decode m (service_request_encode m out)
service_request_encode-decode m out fits room =
    round_trip service_request_decode m (service_request_encode m out) out (service_request_wire m)
      (decode-service_request_wire m fits) (service_request-Encoded m out fits room)

-- A `ServiceAccept` whose fields fit the wire encodes into every buffer that has room for it, and
-- decoding the bytes that were written gives the same message.
pub service_accept_encode-decode :
    (m : ServiceAccept) (out : Bytes)
    → IsServiceAccept m
    → length (service_accept_wire m) ≤ length out
    → RoundTrip service_accept_decode m (service_accept_encode m out)
service_accept_encode-decode m out fits room =
    round_trip service_accept_decode m (service_accept_encode m out) out (service_accept_wire m)
      (decode-service_accept_wire m fits) (service_accept-Encoded m out fits room)

-- A `KexEcdhInit` whose fields fit the wire encodes into every buffer that has room for it, and
-- decoding the bytes that were written gives the same message.
pub kex_ecdh_init_encode-decode :
    (m : KexEcdhInit) (out : Bytes)
    → IsKexEcdhInit m
    → length (kex_ecdh_init_wire m) ≤ length out
    → RoundTrip kex_ecdh_init_decode m (kex_ecdh_init_encode m out)
kex_ecdh_init_encode-decode m out fits room =
    round_trip kex_ecdh_init_decode m (kex_ecdh_init_encode m out) out (kex_ecdh_init_wire m)
      (decode-kex_ecdh_init_wire m fits) (kex_ecdh_init-Encoded m out fits room)

-- A `KexEcdhReply` whose fields fit the wire encodes into every buffer that has room for it, and
-- decoding the bytes that were written gives the same message.
pub kex_ecdh_reply_encode-decode :
    (m : KexEcdhReply) (out : Bytes)
    → IsKexEcdhReply m
    → length (kex_ecdh_reply_wire m) ≤ length out
    → RoundTrip kex_ecdh_reply_decode m (kex_ecdh_reply_encode m out)
kex_ecdh_reply_encode-decode m out fits room =
    round_trip kex_ecdh_reply_decode m (kex_ecdh_reply_encode m out) out (kex_ecdh_reply_wire m)
      (decode-kex_ecdh_reply_wire m fits) (kex_ecdh_reply-Encoded m out fits room)

-- A `ChannelOpen` whose fields fit the wire encodes into every buffer that has room for it, and
-- decoding the bytes that were written gives the same message.
pub channel_open_encode-decode :
    (m : ChannelOpen) (out : Bytes)
    → IsChannelOpen m
    → length (channel_open_wire m) ≤ length out
    → RoundTrip channel_open_decode m (channel_open_encode m out)
channel_open_encode-decode m out fits room =
    round_trip channel_open_decode m (channel_open_encode m out) out (channel_open_wire m)
      (decode-channel_open_wire m fits) (channel_open-Encoded m out fits room)

-- A `ChannelOpenConfirmation` whose fields fit the wire encodes into every buffer that has room for it, and
-- decoding the bytes that were written gives the same message.
pub channel_open_confirmation_encode-decode :
    (m : ChannelOpenConfirmation) (out : Bytes)
    → IsChannelOpenConfirmation m
    → length (channel_open_confirmation_wire m) ≤ length out
    → RoundTrip channel_open_confirmation_decode m (channel_open_confirmation_encode m out)
channel_open_confirmation_encode-decode m out fits room =
    round_trip channel_open_confirmation_decode m (channel_open_confirmation_encode m out) out
      (channel_open_confirmation_wire m) (decode-channel_open_confirmation_wire m fits)
      (channel_open_confirmation-Encoded m out fits room)

-- A `ChannelOpenFailure` whose fields fit the wire encodes into every buffer that has room for it, and
-- decoding the bytes that were written gives the same message.
pub channel_open_failure_encode-decode :
    (m : ChannelOpenFailure) (out : Bytes)
    → IsChannelOpenFailure m
    → length (channel_open_failure_wire m) ≤ length out
    → RoundTrip channel_open_failure_decode m (channel_open_failure_encode m out)
channel_open_failure_encode-decode m out fits room =
    round_trip channel_open_failure_decode m (channel_open_failure_encode m out) out
      (channel_open_failure_wire m) (decode-channel_open_failure_wire m fits)
      (channel_open_failure-Encoded m out fits room)
