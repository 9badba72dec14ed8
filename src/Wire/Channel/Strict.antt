-- ===== src/Wire/Channel/Strict.antt =====
-- crates/tatami_ssh_wire/src/channel.rs: which payloads each decoder accepts.
use tatami_ssh.Prelude.{◌≡◌, refl, Bytes, IsByte, All, ok, append-nil}
use tatami_ssh.Wire.Bytes.{wire_string}
use tatami_ssh.Wire.Msg
use tatami_ssh.Wire.Message.Exact.{
  message-Exact, u32-Exact, string-Exact, finish-Exact, rest-Exact, decode-Exact,
}
use tatami_ssh.Wire.Channel.{
  ChannelOpen, channel_open_fields, channel_open_decode, ChannelOpenConfirmation,
  channel_open_confirmation_fields, channel_open_confirmation_decode, ChannelOpenFailure,
  channel_open_failure_fields, channel_open_failure_decode,
}
use tatami_ssh.Wire.Channel.Codec.{
  IsChannelOpen, channel_open_wire, IsChannelOpenConfirmation, channel_open_confirmation_wire,
  IsChannelOpenFailure, channel_open_failure_wire,
}

-- A `ChannelOpen` that decodes from a payload of bytes has fields that fit the wire, and the payload
-- is exactly the encoding of those fields.
pub channel_open_decode-wire :
    (payload : Bytes) (m : ChannelOpen)
    → All IsByte payload
    → channel_open_decode payload ≡ ok m
    → IsChannelOpen m × (channel_open_wire m ≡ payload)
unfolding channel_open_decode
channel_open_decode-wire payload m bytes h =
    decode-Exact channel_open_fields (λ m p. IsChannelOpen m × (channel_open_wire m ≡ p)) payload m
      bytes
      (message-Exact Msg.channel_open _ _ (
        string-Exact _ _ _ (λ channel_type h0.
          (u32-Exact _ _ _ (λ sender_channel h1.
            (u32-Exact _ _ _ (λ initial_window_size h2.
              (u32-Exact _ _ _ (λ maximum_packet_size h3.
                (rest-Exact _ _ (λ cs. ((h0, h1, h2, h3), refl))))))))))))
      h

-- A `ChannelOpenConfirmation` that decodes from a payload of bytes has fields that fit the wire, and the payload
-- is exactly the encoding of those fields.
pub channel_open_confirmation_decode-wire :
    (payload : Bytes) (m : ChannelOpenConfirmation)
    → All IsByte payload
    → channel_open_confirmation_decode payload ≡ ok m
    → IsChannelOpenConfirmation m × (channel_open_confirmation_wire m ≡ payload)
unfolding channel_open_confirmation_decode
channel_open_confirmation_decode-wire payload m bytes h =
    decode-Exact channel_open_confirmation_fields
      (λ m p. IsChannelOpenConfirmation m × (channel_open_confirmation_wire m ≡ p)) payload m bytes
      (message-Exact Msg.channel_open_confirmation _ _ (
        u32-Exact _ _ _ (λ recipient_channel h0.
          (u32-Exact _ _ _ (λ sender_channel h1.
            (u32-Exact _ _ _ (λ initial_window_size h2.
              (u32-Exact _ _ _ (λ maximum_packet_size h3.
                (rest-Exact _ _ (λ cs. ((h0, h1, h2, h3), refl))))))))))))
      h

-- A `ChannelOpenFailure` that decodes from a payload of bytes has fields that fit the wire, and the payload
-- is exactly the encoding of those fields.
pub channel_open_failure_decode-wire :
    (payload : Bytes) (m : ChannelOpenFailure)
    → All IsByte payload
    → channel_open_failure_decode payload ≡ ok m
    → IsChannelOpenFailure m × (channel_open_failure_wire m ≡ payload)
unfolding channel_open_failure_decode
channel_open_failure_decode-wire payload m bytes h =
    decode-Exact channel_open_failure_fields
      (λ m p. IsChannelOpenFailure m × (channel_open_failure_wire m ≡ p)) payload m bytes
      (message-Exact Msg.channel_open_failure _ _ (
        u32-Exact _ _ _ (λ recipient_channel h0.
          (u32-Exact _ _ _ (λ reason_code h1.
            (string-Exact _ _ _ (λ description h2.
              (string-Exact _ _ _ (λ language_tag h3.
                (finish-Exact {A = ChannelOpenFailure}
                  (record {
                    recipient_channel = recipient_channel;
                    reason_code = reason_code;
                    description = description;
                    language_tag = language_tag;
                  })
                  _ (rw (append-nil (wire_string language_tag)) ((h0, h1, h2, h3), refl))))))))))))
      h
