-- ===== src/Wire/Channel/Codec.antt =====
-- crates/tatami_ssh_wire/src/channel.rs: the wire form of each message, from the encoder to the decoder.
use tatami_ssh.Prelude.{◌≤◌, ◌≡◌, [], ◌∷◌, ◌++◌, Bytes, IsU32, ok, length}
use tatami_ssh.Wire.Bytes.{to_be32, wire_string, IsString}
use tatami_ssh.Wire.Msg
use tatami_ssh.Wire.Writer.{write_u8, write_u32, write_string}
use tatami_ssh.Wire.Writer.Emits.{
  Emits, >>-Emits, write_u8-Emits, write_u32-Emits, write_string-Emits, write_bytes-Emits,
}
use tatami_ssh.Wire.Message.Accepts.{
  Accepts, message-Accepts, last-Accepts, u32-Accepts, string-Accepts, finish-Accepts, rest-Accepts,
  decode-Accepts,
}
use tatami_ssh.Wire.Message.Encodes.{Encoded, encode-Encoded}
use tatami_ssh.Wire.Channel.{
  ChannelOpen, channel_open_fields, channel_open_decode, channel_open_writes, channel_open_encode,
  ChannelOpenConfirmation, channel_open_confirmation_fields, channel_open_confirmation_decode,
  channel_open_confirmation_writes, channel_open_confirmation_encode, ChannelOpenFailure,
  channel_open_failure_fields, channel_open_failure_decode, channel_open_failure_writes,
  channel_open_failure_encode,
}

-- What the encoder puts on the wire, and the fields that fit there.
abbrev pub channel_open_wire : ChannelOpen → Bytes
channel_open_wire m =
    (Msg.channel_open ∷ [])
    ++ ((wire_string m.channel_type)
        ++ ((to_be32 m.sender_channel)
            ++ ((to_be32 m.initial_window_size)
                ++ ((to_be32 m.maximum_packet_size) ++ (m.type_specific)))))

abbrev pub IsChannelOpen : ChannelOpen → Type 0
IsChannelOpen m =
    IsString m.channel_type
    × IsU32 m.sender_channel
    × IsU32 m.initial_window_size
    × IsU32 m.maximum_packet_size

pub channel_open-Emits :
    (m : ChannelOpen) → IsChannelOpen m → Emits (channel_open_writes m) (channel_open_wire m)
unfolding channel_open_writes
channel_open-Emits m h =
    (>>-Emits (write_u8 Msg.channel_open) _ _ _ (write_u8-Emits Msg.channel_open) (
      >>-Emits (write_string m.channel_type) _ _ _ (write_string-Emits m.channel_type h.0) (
        >>-Emits (write_u32 m.sender_channel) _ _ _ (write_u32-Emits m.sender_channel) (
          >>-Emits (write_u32 m.initial_window_size) _ _ _ (write_u32-Emits m.initial_window_size) (
            >>-Emits (write_u32 m.maximum_packet_size) _ _ _ (write_u32-Emits m.maximum_packet_size)
              (write_bytes-Emits m.type_specific))))))

channel_open-Accepts :
    (m : ChannelOpen) → IsChannelOpen m → Accepts channel_open_fields (channel_open_wire m) m
unfolding channel_open_fields
channel_open-Accepts m h = message-Accepts Msg.channel_open _ _ _ (
    string-Accepts m.channel_type h.0 _ _ _ _ (
      u32-Accepts m.sender_channel h.1 _ _ _ _ (
        u32-Accepts m.initial_window_size h.2 _ _ _ _ (
          u32-Accepts m.maximum_packet_size h.3 _ _ _ _
            (rest-Accepts (λ cs. record m { type_specific = cs }) m.type_specific)))))

pub decode-channel_open_wire :
    (m : ChannelOpen) → IsChannelOpen m → channel_open_decode (channel_open_wire m) ≡ ok m
unfolding channel_open_decode
decode-channel_open_wire m h =
    decode-Accepts channel_open_fields (channel_open_wire m) m (channel_open-Accepts m h)

pub channel_open-Encoded :
    (m : ChannelOpen) (out : Bytes)
    → IsChannelOpen m
    → length (channel_open_wire m) ≤ length out
    → Encoded (channel_open_encode m out) out (channel_open_wire m)
unfolding channel_open_encode
channel_open-Encoded m out h fits =
    encode-Encoded (channel_open_writes m) (channel_open_wire m) out (channel_open-Emits m h) fits

-- What the encoder puts on the wire, and the fields that fit there.
abbrev pub channel_open_confirmation_wire : ChannelOpenConfirmation → Bytes
channel_open_confirmation_wire m =
    (Msg.channel_open_confirmation ∷ [])
    ++ ((to_be32 m.recipient_channel)
        ++ ((to_be32 m.sender_channel)
            ++ ((to_be32 m.initial_window_size)
                ++ ((to_be32 m.maximum_packet_size) ++ (m.type_specific)))))

abbrev pub IsChannelOpenConfirmation : ChannelOpenConfirmation → Type 0
IsChannelOpenConfirmation m =
    IsU32 m.recipient_channel
    × IsU32 m.sender_channel
    × IsU32 m.initial_window_size
    × IsU32 m.maximum_packet_size

pub channel_open_confirmation-Emits :
    (m : ChannelOpenConfirmation)
    → IsChannelOpenConfirmation m
    → Emits (channel_open_confirmation_writes m) (channel_open_confirmation_wire m)
unfolding channel_open_confirmation_writes
channel_open_confirmation-Emits m h =
    (>>-Emits (write_u8 Msg.channel_open_confirmation) _ _ _
      (write_u8-Emits Msg.channel_open_confirmation)
      (>>-Emits (write_u32 m.recipient_channel) _ _ _ (write_u32-Emits m.recipient_channel) (
        >>-Emits (write_u32 m.sender_channel) _ _ _ (write_u32-Emits m.sender_channel) (
          >>-Emits (write_u32 m.initial_window_size) _ _ _ (write_u32-Emits m.initial_window_size) (
            >>-Emits (write_u32 m.maximum_packet_size) _ _ _ (write_u32-Emits m.maximum_packet_size)
              (write_bytes-Emits m.type_specific))))))

channel_open_confirmation-Accepts :
    (m : ChannelOpenConfirmation)
    → IsChannelOpenConfirmation m
    → Accepts channel_open_confirmation_fields (channel_open_confirmation_wire m) m
unfolding channel_open_confirmation_fields
channel_open_confirmation-Accepts m h = message-Accepts Msg.channel_open_confirmation _ _ _ (
    u32-Accepts m.recipient_channel h.0 _ _ _ _ (
      u32-Accepts m.sender_channel h.1 _ _ _ _ (
        u32-Accepts m.initial_window_size h.2 _ _ _ _ (
          u32-Accepts m.maximum_packet_size h.3 _ _ _ _
            (rest-Accepts (λ cs. record m { type_specific = cs }) m.type_specific)))))

pub decode-channel_open_confirmation_wire :
    (m : ChannelOpenConfirmation)
    → IsChannelOpenConfirmation m
    → channel_open_confirmation_decode (channel_open_confirmation_wire m) ≡ ok m
unfolding channel_open_confirmation_decode
decode-channel_open_confirmation_wire m h =
    decode-Accepts channel_open_confirmation_fields (channel_open_confirmation_wire m) m
      (channel_open_confirmation-Accepts m h)

pub channel_open_confirmation-Encoded :
    (m : ChannelOpenConfirmation) (out : Bytes)
    → IsChannelOpenConfirmation m
    → length (channel_open_confirmation_wire m) ≤ length out
    → Encoded (channel_open_confirmation_encode m out) out (channel_open_confirmation_wire m)
unfolding channel_open_confirmation_encode
channel_open_confirmation-Encoded m out h fits =
    encode-Encoded (channel_open_confirmation_writes m) (channel_open_confirmation_wire m) out
      (channel_open_confirmation-Emits m h) fits

-- What the encoder puts on the wire, and the fields that fit there.
abbrev pub channel_open_failure_wire : ChannelOpenFailure → Bytes
channel_open_failure_wire m =
    (Msg.channel_open_failure ∷ [])
    ++ ((to_be32 m.recipient_channel)
        ++ ((to_be32 m.reason_code)
            ++ ((wire_string m.description) ++ ((wire_string m.language_tag)))))

abbrev pub IsChannelOpenFailure : ChannelOpenFailure → Type 0
IsChannelOpenFailure m =
    IsU32 m.recipient_channel
    × IsU32 m.reason_code
    × IsString m.description
    × IsString m.language_tag

pub channel_open_failure-Emits :
    (m : ChannelOpenFailure)
    → IsChannelOpenFailure m
    → Emits (channel_open_failure_writes m) (channel_open_failure_wire m)
unfolding channel_open_failure_writes
channel_open_failure-Emits m h =
    (>>-Emits (write_u8 Msg.channel_open_failure) _ _ _ (write_u8-Emits Msg.channel_open_failure) (
      >>-Emits (write_u32 m.recipient_channel) _ _ _ (write_u32-Emits m.recipient_channel) (
        >>-Emits (write_u32 m.reason_code) _ _ _ (write_u32-Emits m.reason_code) (
          >>-Emits (write_string m.description) _ _ _ (write_string-Emits m.description h.2)
            (write_string-Emits m.language_tag h.3)))))

channel_open_failure-Accepts :
    (m : ChannelOpenFailure)
    → IsChannelOpenFailure m
    → Accepts channel_open_failure_fields (channel_open_failure_wire m) m
unfolding channel_open_failure_fields
channel_open_failure-Accepts m h = message-Accepts Msg.channel_open_failure _ _ _ (
    u32-Accepts m.recipient_channel h.0 _ _ _ _ (
      u32-Accepts m.reason_code h.1 _ _ _ _ (
        string-Accepts m.description h.2 _ _ _ _
          (last-Accepts _ _ m (string-Accepts m.language_tag h.3 _ _ _ _ (finish-Accepts m))))))

pub decode-channel_open_failure_wire :
    (m : ChannelOpenFailure)
    → IsChannelOpenFailure m
    → channel_open_failure_decode (channel_open_failure_wire m) ≡ ok m
unfolding channel_open_failure_decode
decode-channel_open_failure_wire m h =
    decode-Accepts channel_open_failure_fields (channel_open_failure_wire m) m
      (channel_open_failure-Accepts m h)

pub channel_open_failure-Encoded :
    (m : ChannelOpenFailure) (out : Bytes)
    → IsChannelOpenFailure m
    → length (channel_open_failure_wire m) ≤ length out
    → Encoded (channel_open_failure_encode m out) out (channel_open_failure_wire m)
unfolding channel_open_failure_encode
channel_open_failure-Encoded m out h fits =
    encode-Encoded (channel_open_failure_writes m) (channel_open_failure_wire m) out
      (channel_open_failure-Emits m h) fits
