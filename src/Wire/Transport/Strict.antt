-- ===== src/Wire/Transport/Strict.antt =====
-- crates/tatami_ssh_wire/src/transport.rs: which payloads each decoder accepts.
use tatami_ssh.Prelude.{ℕ, ◌≡◌, refl, not, [], ◌∷◌, ◌++◌, Bytes, IsByte, All, ok, append-nil, ◌==◌}
use tatami_ssh.Wire.Bytes.{wire_string}
use tatami_ssh.Wire.Msg
use tatami_ssh.Wire.Message.Exact.{
  message-Exact, u32-Exact, string-Exact, bool-Exact, finish-Exact, decode-Exact,
}
use tatami_ssh.Wire.Transport.{
  Disconnect, disconnect_fields, disconnect_decode, Ignore, ignore_fields, ignore_decode,
  Unimplemented, unimplemented_fields, unimplemented_decode, Debug, debug_fields, debug_decode,
  ServiceRequest, service_request_fields, service_request_decode, ServiceAccept,
  service_accept_fields, service_accept_decode,
}
use tatami_ssh.Wire.Transport.Codec.{
  IsDisconnect, disconnect_wire, IsIgnore, ignore_wire, IsUnimplemented, unimplemented_wire,
  IsDebug, IsServiceRequest, service_request_wire, IsServiceAccept, service_accept_wire,
}

-- A `Disconnect` that decodes from a payload of bytes has fields that fit the wire, and the payload
-- is exactly the encoding of those fields.
pub disconnect_decode-wire :
    (payload : Bytes) (m : Disconnect)
    → All IsByte payload
    → disconnect_decode payload ≡ ok m
    → IsDisconnect m × (disconnect_wire m ≡ payload)
unfolding disconnect_decode
disconnect_decode-wire payload m bytes h =
    decode-Exact disconnect_fields (λ m p. IsDisconnect m × (disconnect_wire m ≡ p)) payload m bytes
      (message-Exact Msg.disconnect _ _ (
        u32-Exact _ _ _ (λ reason_code h0.
          (string-Exact _ _ _ (λ description h1.
            (string-Exact _ _ _ (λ language_tag h2.
              (finish-Exact {A = Disconnect}
                (record {
                  reason_code = reason_code;
                  description = description;
                  language_tag = language_tag;
                })
                _ (rw (append-nil (wire_string language_tag)) ((h0, h1, h2), refl))))))))))
      h

pub ignore_decode-wire :
    (payload : Bytes) (m : Ignore)
    → All IsByte payload
    → ignore_decode payload ≡ ok m
    → IsIgnore m × (ignore_wire m ≡ payload)
unfolding ignore_decode
ignore_decode-wire payload m bytes h =
    decode-Exact ignore_fields (λ m p. IsIgnore m × (ignore_wire m ≡ p)) payload m bytes
      (message-Exact Msg.ignore _ _ (
        string-Exact _ _ _ (λ contents h0.
          (finish-Exact {A = Ignore} (record { contents = contents }) _
            (rw (append-nil (wire_string contents)) (h0, refl))))))
      h

pub unimplemented_decode-wire :
    (payload : Bytes) (m : Unimplemented)
    → All IsByte payload
    → unimplemented_decode payload ≡ ok m
    → IsUnimplemented m × (unimplemented_wire m ≡ payload)
unfolding unimplemented_decode
unimplemented_decode-wire payload m bytes h =
    decode-Exact unimplemented_fields (λ m p. IsUnimplemented m × (unimplemented_wire m ≡ p))
      payload m bytes
      (message-Exact Msg.unimplemented _ _ (
        u32-Exact _ _ _ (λ sequence_number h0.
          (finish-Exact {A = Unimplemented} (record { sequence_number = sequence_number }) _
            (h0, refl)))))
      h

pub service_request_decode-wire :
    (payload : Bytes) (m : ServiceRequest)
    → All IsByte payload
    → service_request_decode payload ≡ ok m
    → IsServiceRequest m × (service_request_wire m ≡ payload)
unfolding service_request_decode
service_request_decode-wire payload m bytes h =
    decode-Exact service_request_fields (λ m p. IsServiceRequest m × (service_request_wire m ≡ p))
      payload m bytes
      (message-Exact Msg.service_request _ _ (
        string-Exact _ _ _ (λ service_name h0.
          (finish-Exact {A = ServiceRequest} (record { service_name = service_name }) _
            (rw (append-nil (wire_string service_name)) (h0, refl))))))
      h

pub service_accept_decode-wire :
    (payload : Bytes) (m : ServiceAccept)
    → All IsByte payload
    → service_accept_decode payload ≡ ok m
    → IsServiceAccept m × (service_accept_wire m ≡ payload)
unfolding service_accept_decode
service_accept_decode-wire payload m bytes h =
    decode-Exact service_accept_fields (λ m p. IsServiceAccept m × (service_accept_wire m ≡ p))
      payload m bytes
      (message-Exact Msg.service_accept _ _ (
        string-Exact _ _ _ (λ service_name h0.
          (finish-Exact {A = ServiceAccept} (record { service_name = service_name }) _
            (rw (append-nil (wire_string service_name)) (h0, refl))))))
      h

-- `DEBUG` has one encoding for each nonzero byte that stands for `true`.
pub debug_decode-wire :
    (payload : Bytes) (m : Debug)
    → All IsByte payload
    → debug_decode payload ≡ ok m
    → IsDebug m
      × ((x : ℕ) × (m.always_display ≡ not (x == 0))
          × ((Msg.debug ∷ x ∷ []) ++ (wire_string m.message ++ wire_string m.language_tag)
              ≡ payload))
unfolding debug_decode
debug_decode-wire payload m bytes h =
    decode-Exact debug_fields
      (λ m p.
        IsDebug m
        × ((x : ℕ) × (m.always_display ≡ not (x == 0))
            × ((Msg.debug ∷ x ∷ []) ++ (wire_string m.message ++ wire_string m.language_tag) ≡ p)))
      payload m bytes
      (message-Exact Msg.debug _ _ (
        bool-Exact _ _ _ (λ b x hb.
          (string-Exact _ _ _ (λ message h0.
            (string-Exact _ _ _ (λ tag h1.
              (finish-Exact {A = Debug}
                (record { always_display = b; message = message; language_tag = tag }) _
                (rw (append-nil (wire_string tag)) ((h0, h1), (x, hb, refl)))))))))))
      h
