-- ===== src/Wire/Samples.antt =====
-- crates/tatami_ssh_wire/src/transport.rs, kex.rs and channel.rs: the theorems at concrete messages.
use tatami_ssh.Prelude.{zero, suc, ℕ, ◌≡◌, arith, Bytes, [], ◌∷◌, ◌++◌, not, ◌==◌, true}
use tatami_ssh.Wire.Bytes.{wire_string}
use tatami_ssh.Wire.Msg
use tatami_ssh.Wire.Transport.{
  Disconnect, disconnect_decode, disconnect_encode, Debug, debug_decode, debug_encode,
  ServiceRequest,
}
use tatami_ssh.Wire.Transport.Codec.{
  IsDisconnect, disconnect_wire, decode-disconnect_wire, IsDebug, debug_wire, decode-debug_wire,
  IsServiceRequest,
}
use tatami_ssh.Wire.Transport.Strict.{disconnect_decode-wire, debug_decode-wire}
use tatami_ssh.Wire.Kex.{KexEcdhReply, kex_ecdh_reply_decode, kex_ecdh_reply_encode}
use tatami_ssh.Wire.Kex.Codec.{IsKexEcdhReply, kex_ecdh_reply_wire, decode-kex_ecdh_reply_wire}
use tatami_ssh.Wire.Kex.Strict.{kex_ecdh_reply_decode-wire}
use tatami_ssh.Wire.Channel.{
  ChannelOpen, channel_open_decode, channel_open_encode, ChannelOpenConfirmation,
  ChannelOpenFailure,
}
use tatami_ssh.Wire.Channel.Codec.{
  IsChannelOpen, channel_open_wire, decode-channel_open_wire, IsChannelOpenConfirmation,
  channel_open_confirmation_wire, decode-channel_open_confirmation_wire, IsChannelOpenFailure,
  channel_open_failure_wire, decode-channel_open_failure_wire,
}
use tatami_ssh.Wire.Channel.Strict.{
  channel_open_decode-wire, channel_open_confirmation_decode-wire, channel_open_failure_decode-wire,
}
use tatami_ssh.Wire.RoundTrips.{
  RoundTrip, channel_open_encode-decode, kex_ecdh_reply_encode-decode, disconnect_encode-decode,
  debug_encode-decode,
}

abbrev zeros : ℕ → Bytes
zeros zero = []
zeros (suc n) = 0 ∷ zeros n

abbrev a_channel_open : ChannelOpen
a_channel_open = record {
  channel_type = 120 ∷ [];
  sender_channel = 7;
  initial_window_size = 65536;
  maximum_packet_size = 32768;
  type_specific = 1 ∷ 2 ∷ [];
}

a_channel_open-fits : IsChannelOpen a_channel_open
a_channel_open-fits = ground arith

channel_open_encode-decode_example :
    RoundTrip channel_open_decode a_channel_open (channel_open_encode a_channel_open (zeros 64))
channel_open_encode-decode_example =
    channel_open_encode-decode a_channel_open (zeros 64) a_channel_open-fits (omega arith)

channel_open_decode-wire_example :
    IsChannelOpen a_channel_open
    × (channel_open_wire a_channel_open ≡ channel_open_wire a_channel_open)
channel_open_decode-wire_example =
    channel_open_decode-wire (channel_open_wire a_channel_open) a_channel_open (ground arith)
      (decode-channel_open_wire a_channel_open a_channel_open-fits)

abbrev a_channel_open_confirmation : ChannelOpenConfirmation
a_channel_open_confirmation = record {
  recipient_channel = 7;
  sender_channel = 4294967295;
  initial_window_size = 65536;
  maximum_packet_size = 32768;
  type_specific = [];
}

a_channel_open_confirmation-fits : IsChannelOpenConfirmation a_channel_open_confirmation
a_channel_open_confirmation-fits = ground arith

channel_open_confirmation_decode-wire_example :
    IsChannelOpenConfirmation a_channel_open_confirmation
    × (channel_open_confirmation_wire a_channel_open_confirmation
        ≡ channel_open_confirmation_wire a_channel_open_confirmation)
channel_open_confirmation_decode-wire_example =
    channel_open_confirmation_decode-wire
      (channel_open_confirmation_wire a_channel_open_confirmation) a_channel_open_confirmation
      (ground arith)
      (decode-channel_open_confirmation_wire a_channel_open_confirmation
        a_channel_open_confirmation-fits)

abbrev a_channel_open_failure : ChannelOpenFailure
a_channel_open_failure = record {
  recipient_channel = 7;
  reason_code = 4;
  description = 110 ∷ 111 ∷ [];
  language_tag = [];
}

a_channel_open_failure-fits : IsChannelOpenFailure a_channel_open_failure
a_channel_open_failure-fits = ground arith

channel_open_failure_decode-wire_example :
    IsChannelOpenFailure a_channel_open_failure
    × (channel_open_failure_wire a_channel_open_failure
        ≡ channel_open_failure_wire a_channel_open_failure)
channel_open_failure_decode-wire_example =
    channel_open_failure_decode-wire (channel_open_failure_wire a_channel_open_failure)
      a_channel_open_failure (ground arith)
      (decode-channel_open_failure_wire a_channel_open_failure a_channel_open_failure-fits)

abbrev a_kex_ecdh_reply : KexEcdhReply
a_kex_ecdh_reply = record {
  host_key_blob = 1 ∷ 2 ∷ [];
  server_ephemeral = 255 ∷ [];
  signature_blob = 9 ∷ 9 ∷ 9 ∷ [];
}

a_kex_ecdh_reply-fits : IsKexEcdhReply a_kex_ecdh_reply
a_kex_ecdh_reply-fits = ground arith

kex_ecdh_reply_encode-decode_example :
    RoundTrip kex_ecdh_reply_decode a_kex_ecdh_reply
      (kex_ecdh_reply_encode a_kex_ecdh_reply (zeros 64))
kex_ecdh_reply_encode-decode_example =
    kex_ecdh_reply_encode-decode a_kex_ecdh_reply (zeros 64) a_kex_ecdh_reply-fits (omega arith)

kex_ecdh_reply_decode-wire_example :
    IsKexEcdhReply a_kex_ecdh_reply
    × (kex_ecdh_reply_wire a_kex_ecdh_reply ≡ kex_ecdh_reply_wire a_kex_ecdh_reply)
kex_ecdh_reply_decode-wire_example =
    kex_ecdh_reply_decode-wire (kex_ecdh_reply_wire a_kex_ecdh_reply) a_kex_ecdh_reply
      (ground arith) (decode-kex_ecdh_reply_wire a_kex_ecdh_reply a_kex_ecdh_reply-fits)

abbrev a_disconnect : Disconnect
a_disconnect = record { reason_code = 11; description = 98 ∷ 121 ∷ 101 ∷ []; language_tag = [] }

a_disconnect-fits : IsDisconnect a_disconnect
a_disconnect-fits = ground arith

disconnect_encode-decode_example :
    RoundTrip disconnect_decode a_disconnect (disconnect_encode a_disconnect (zeros 64))
disconnect_encode-decode_example =
    disconnect_encode-decode a_disconnect (zeros 64) a_disconnect-fits (omega arith)

disconnect_decode-wire_example :
    IsDisconnect a_disconnect × (disconnect_wire a_disconnect ≡ disconnect_wire a_disconnect)
disconnect_decode-wire_example =
    disconnect_decode-wire (disconnect_wire a_disconnect) a_disconnect (ground arith)
      (decode-disconnect_wire a_disconnect a_disconnect-fits)

abbrev a_debug : Debug
a_debug = record { always_display = true; message = 104 ∷ 105 ∷ []; language_tag = [] }

a_debug-fits : IsDebug a_debug
a_debug-fits = ground arith

debug_encode-decode_example : RoundTrip debug_decode a_debug (debug_encode a_debug (zeros 64))
debug_encode-decode_example = debug_encode-decode a_debug (zeros 64) a_debug-fits (omega arith)

debug_decode-wire_example :
    IsDebug a_debug
    × ((x : ℕ) × (a_debug.always_display ≡ not (x == 0))
        × ((Msg.debug ∷ x ∷ []) ++ (wire_string a_debug.message ++ wire_string a_debug.language_tag)
            ≡ debug_wire a_debug))
debug_decode-wire_example =
    debug_decode-wire (debug_wire a_debug) a_debug (ground arith)
      (decode-debug_wire a_debug a_debug-fits)

abbrev a_service_request : ServiceRequest
a_service_request = record { service_name = 115 ∷ 115 ∷ 104 ∷ [] }

a_service_request-fits : IsServiceRequest a_service_request
a_service_request-fits = ground arith
