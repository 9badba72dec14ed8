-- ===== src/Wire/Transport/Codec.antt =====
-- crates/tatami_ssh_wire/src/transport.rs: the wire form of each message, from the encoder to the decoder.
use tatami_ssh.Prelude.{◌≤◌, ◌≡◌, [], ◌∷◌, ◌++◌, Bytes, IsU32, ok, length, if◌then◌else◌}
use tatami_ssh.Wire.Bytes.{to_be32, wire_string, IsString}
use tatami_ssh.Wire.Msg
use tatami_ssh.Wire.Writer.{write_u8, write_bool, write_u32, write_string}
use tatami_ssh.Wire.Writer.Emits.{
  Emits, >>-Emits, write_u8-Emits, write_bool-Emits, write_u32-Emits, write_string-Emits,
}
use tatami_ssh.Wire.Message.Accepts.{
  Accepts, message-Accepts, last-Accepts, u32-Accepts, string-Accepts, bool-Accepts, finish-Accepts,
  decode-Accepts,
}
use tatami_ssh.Wire.Message.Encodes.{Encoded, encode-Encoded}
use tatami_ssh.Wire.Transport.{
  Disconnect, disconnect_fields, disconnect_decode, disconnect_writes, disconnect_encode, Ignore,
  ignore_fields, ignore_decode, ignore_writes, ignore_encode, Unimplemented, unimplemented_fields,
  unimplemented_decode, unimplemented_writes, unimplemented_encode, Debug, debug_fields,
  debug_decode, debug_writes, debug_encode, ServiceRequest, service_request_fields,
  service_request_decode, service_request_writes, service_request_encode, ServiceAccept,
  service_accept_fields, service_accept_decode, service_accept_writes, service_accept_encode,
}

-- What the encoder puts on the wire, and the fields that fit there.
abbrev pub disconnect_wire : Disconnect → Bytes
disconnect_wire m =
    (Msg.disconnect ∷ [])
    ++ ((to_be32 m.reason_code) ++ ((wire_string m.description) ++ ((wire_string m.language_tag))))

abbrev pub IsDisconnect : Disconnect → Type 0
IsDisconnect m = IsU32 m.reason_code × IsString m.description × IsString m.language_tag

pub disconnect-Emits :
    (m : Disconnect) → IsDisconnect m → Emits (disconnect_writes m) (disconnect_wire m)
unfolding disconnect_writes
disconnect-Emits m h =
    (>>-Emits (write_u8 Msg.disconnect) _ _ _ (write_u8-Emits Msg.disconnect) (
      >>-Emits (write_u32 m.reason_code) _ _ _ (write_u32-Emits m.reason_code) (
        >>-Emits (write_string m.description) _ _ _ (write_string-Emits m.description h.1)
          (write_string-Emits m.language_tag h.2))))

disconnect-Accepts :
    (m : Disconnect) → IsDisconnect m → Accepts disconnect_fields (disconnect_wire m) m
unfolding disconnect_fields
disconnect-Accepts m h = message-Accepts Msg.disconnect _ _ _ (
    u32-Accepts m.reason_code h.0 _ _ _ _ (
      string-Accepts m.description h.1 _ _ _ _
        (last-Accepts _ _ m (string-Accepts m.language_tag h.2 _ _ _ _ (finish-Accepts m)))))

pub decode-disconnect_wire :
    (m : Disconnect) → IsDisconnect m → disconnect_decode (disconnect_wire m) ≡ ok m
unfolding disconnect_decode
decode-disconnect_wire m h =
    decode-Accepts disconnect_fields (disconnect_wire m) m (disconnect-Accepts m h)

pub disconnect-Encoded :
    (m : Disconnect) (out : Bytes)
    → IsDisconnect m
    → length (disconnect_wire m) ≤ length out
    → Encoded (disconnect_encode m out) out (disconnect_wire m)
unfolding disconnect_encode
disconnect-Encoded m out h fits =
    encode-Encoded (disconnect_writes m) (disconnect_wire m) out (disconnect-Emits m h) fits

-- What the encoder puts on the wire, and the fields that fit there.
abbrev pub ignore_wire : Ignore → Bytes
ignore_wire m = (Msg.ignore ∷ []) ++ ((wire_string m.contents))

abbrev pub IsIgnore : Ignore → Type 0
IsIgnore m = IsString m.contents

pub ignore-Emits : (m : Ignore) → IsIgnore m → Emits (ignore_writes m) (ignore_wire m)
unfolding ignore_writes
ignore-Emits m h =
    (>>-Emits (write_u8 Msg.ignore) _ _ _ (write_u8-Emits Msg.ignore)
      (write_string-Emits m.contents h))

ignore-Accepts : (m : Ignore) → IsIgnore m → Accepts ignore_fields (ignore_wire m) m
unfolding ignore_fields
ignore-Accepts m h =
    message-Accepts Msg.ignore _ _ _
      (last-Accepts _ _ m (string-Accepts m.contents h _ _ _ _ (finish-Accepts m)))

pub decode-ignore_wire : (m : Ignore) → IsIgnore m → ignore_decode (ignore_wire m) ≡ ok m
unfolding ignore_decode
decode-ignore_wire m h = decode-Accepts ignore_fields (ignore_wire m) m (ignore-Accepts m h)

pub ignore-Encoded :
    (m : Ignore) (out : Bytes)
    → IsIgnore m
    → length (ignore_wire m) ≤ length out
    → Encoded (ignore_encode m out) out (ignore_wire m)
unfolding ignore_encode
ignore-Encoded m out h fits =
    encode-Encoded (ignore_writes m) (ignore_wire m) out (ignore-Emits m h) fits

-- What the encoder puts on the wire, and the fields that fit there.
abbrev pub unimplemented_wire : Unimplemented → Bytes
unimplemented_wire m = (Msg.unimplemented ∷ []) ++ ((to_be32 m.sequence_number))

abbrev pub IsUnimplemented : Unimplemented → Type 0
IsUnimplemented m = IsU32 m.sequence_number

pub unimplemented-Emits :
    (m : Unimplemented) → IsUnimplemented m → Emits (unimplemented_writes m) (unimplemented_wire m)
unfolding unimplemented_writes
unimplemented-Emits m h =
    (>>-Emits (write_u8 Msg.unimplemented) _ _ _ (write_u8-Emits Msg.unimplemented)
      (write_u32-Emits m.sequence_number))

unimplemented-Accepts :
    (m : Unimplemented) → IsUnimplemented m → Accepts unimplemented_fields (unimplemented_wire m) m
unfolding unimplemented_fields
unimplemented-Accepts m h =
    message-Accepts Msg.unimplemented _ _ _
      (last-Accepts _ _ m (u32-Accepts m.sequence_number h _ _ _ _ (finish-Accepts m)))

pub decode-unimplemented_wire :
    (m : Unimplemented) → IsUnimplemented m → unimplemented_decode (unimplemented_wire m) ≡ ok m
unfolding unimplemented_decode
decode-unimplemented_wire m h =
    decode-Accepts unimplemented_fields (unimplemented_wire m) m (unimplemented-Accepts m h)

pub unimplemented-Encoded :
    (m : Unimplemented) (out : Bytes)
    → IsUnimplemented m
    → length (unimplemented_wire m) ≤ length out
    → Encoded (unimplemented_encode m out) out (unimplemented_wire m)
unfolding unimplemented_encode
unimplemented-Encoded m out h fits =
    encode-Encoded (unimplemented_writes m) (unimplemented_wire m) out (unimplemented-Emits m h)
      fits

-- What the encoder puts on the wire, and the fields that fit there.
abbrev pub debug_wire : Debug → Bytes
debug_wire m =
    (Msg.debug ∷ [])
    ++ (((if m.always_display then 1 else 0) ∷ [])
        ++ ((wire_string m.message) ++ ((wire_string m.language_tag))))

abbrev pub IsDebug : Debug → Type 0
IsDebug m = IsString m.message × IsString m.language_tag

pub debug-Emits : (m : Debug) → IsDebug m → Emits (debug_writes m) (debug_wire m)
unfolding debug_writes
debug-Emits m h =
    (>>-Emits (write_u8 Msg.debug) _ _ _ (write_u8-Emits Msg.debug) (
      >>-Emits (write_bool m.always_display) _ _ _ (write_bool-Emits m.always_display) (
        >>-Emits (write_string m.message) _ _ _ (write_string-Emits m.message h.0)
          (write_string-Emits m.language_tag h.1))))

debug-Accepts : (m : Debug) → IsDebug m → Accepts debug_fields (debug_wire m) m
unfolding debug_fields
debug-Accepts m h = message-Accepts Msg.debug _ _ _ (
    bool-Accepts m.always_display _ _ _ _ (
      string-Accepts m.message h.0 _ _ _ _
        (last-Accepts _ _ m (string-Accepts m.language_tag h.1 _ _ _ _ (finish-Accepts m)))))

pub decode-debug_wire : (m : Debug) → IsDebug m → debug_decode (debug_wire m) ≡ ok m
unfolding debug_decode
decode-debug_wire m h = decode-Accepts debug_fields (debug_wire m) m (debug-Accepts m h)

pub debug-Encoded :
    (m : Debug) (out : Bytes)
    → IsDebug m
    → length (debug_wire m) ≤ length out
    → Encoded (debug_encode m out) out (debug_wire m)
unfolding debug_encode
debug-Encoded m out h fits =
    encode-Encoded (debug_writes m) (debug_wire m) out (debug-Emits m h) fits

-- What the encoder puts on the wire, and the fields that fit there.
abbrev pub service_request_wire : ServiceRequest → Bytes
service_request_wire m = (Msg.service_request ∷ []) ++ ((wire_string m.service_name))

abbrev pub IsServiceRequest : ServiceRequest → Type 0
IsServiceRequest m = IsString m.service_name

pub service_request-Emits :
    (m : ServiceRequest)
    → IsServiceRequest m
    → Emits (service_request_writes m) (service_request_wire m)
unfolding service_request_writes
service_request-Emits m h =
    (>>-Emits (write_u8 Msg.service_request) _ _ _ (write_u8-Emits Msg.service_request)
      (write_string-Emits m.service_name h))

service_request-Accepts :
    (m : ServiceRequest)
    → IsServiceRequest m
    → Accepts service_request_fields (service_request_wire m) m
unfolding service_request_fields
service_request-Accepts m h =
    message-Accepts Msg.service_request _ _ _
      (last-Accepts _ _ m (string-Accepts m.service_name h _ _ _ _ (finish-Accepts m)))

pub decode-service_request_wire :
    (m : ServiceRequest)
    → IsServiceRequest m
    → service_request_decode (service_request_wire m) ≡ ok m
unfolding service_request_decode
decode-service_request_wire m h =
    decode-Accepts service_request_fields (service_request_wire m) m (service_request-Accepts m h)

pub service_request-Encoded :
    (m : ServiceRequest) (out : Bytes)
    → IsServiceRequest m
    → length (service_request_wire m) ≤ length out
    → Encoded (service_request_encode m out) out (service_request_wire m)
unfolding service_request_encode
service_request-Encoded m out h fits =
    encode-Encoded (service_request_writes m) (service_request_wire m) out
      (service_request-Emits m h) fits

-- What the encoder puts on the wire, and the fields that fit there.
abbrev pub service_accept_wire : ServiceAccept → Bytes
service_accept_wire m = (Msg.service_accept ∷ []) ++ ((wire_string m.service_name))

abbrev pub IsServiceAccept : ServiceAccept → Type 0
IsServiceAccept m = IsString m.service_name

pub service_accept-Emits :
    (m : ServiceAccept)
    → IsServiceAccept m
    → Emits (service_accept_writes m) (service_accept_wire m)
unfolding service_accept_writes
service_accept-Emits m h =
    (>>-Emits (write_u8 Msg.service_accept) _ _ _ (write_u8-Emits Msg.service_accept)
      (write_string-Emits m.service_name h))

service_accept-Accepts :
    (m : ServiceAccept)
    → IsServiceAccept m
    → Accepts service_accept_fields (service_accept_wire m) m
unfolding service_accept_fields
service_accept-Accepts m h =
    message-Accepts Msg.service_accept _ _ _
      (last-Accepts _ _ m (string-Accepts m.service_name h _ _ _ _ (finish-Accepts m)))

pub decode-service_accept_wire :
    (m : ServiceAccept) → IsServiceAccept m → service_accept_decode (service_accept_wire m) ≡ ok m
unfolding service_accept_decode
decode-service_accept_wire m h =
    decode-Accepts service_accept_fields (service_accept_wire m) m (service_accept-Accepts m h)

pub service_accept-Encoded :
    (m : ServiceAccept) (out : Bytes)
    → IsServiceAccept m
    → length (service_accept_wire m) ≤ length out
    → Encoded (service_accept_encode m out) out (service_accept_wire m)
unfolding service_accept_encode
service_accept-Encoded m out h fits =
    encode-Encoded (service_accept_writes m) (service_accept_wire m) out (service_accept-Emits m h)
      fits
