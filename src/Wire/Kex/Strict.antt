-- ===== src/Wire/Kex/Strict.antt =====
-- crates/tatami_ssh_wire/src/kex.rs: which payloads each decoder accepts.
use tatami_ssh.Prelude.{◌≡◌, refl, Bytes, IsByte, All, ok, append-nil}
use tatami_ssh.Wire.Bytes.{wire_string}
use tatami_ssh.Wire.Msg
use tatami_ssh.Wire.Message.Exact.{message-Exact, string-Exact, finish-Exact, decode-Exact}
use tatami_ssh.Wire.Kex.{
  KexEcdhInit, kex_ecdh_init_fields, kex_ecdh_init_decode, KexEcdhReply, kex_ecdh_reply_fields,
  kex_ecdh_reply_decode,
}
use tatami_ssh.Wire.Kex.Codec.{
  IsKexEcdhInit, kex_ecdh_init_wire, IsKexEcdhReply, kex_ecdh_reply_wire,
}

pub kex_ecdh_init_decode-wire :
    (payload : Bytes) (m : KexEcdhInit)
    → All IsByte payload
    → kex_ecdh_init_decode payload ≡ ok m
    → IsKexEcdhInit m × (kex_ecdh_init_wire m ≡ payload)
unfolding kex_ecdh_init_decode
kex_ecdh_init_decode-wire payload m bytes h =
    decode-Exact kex_ecdh_init_fields (λ m p. IsKexEcdhInit m × (kex_ecdh_init_wire m ≡ p)) payload
      m bytes
      (message-Exact Msg.kex_ecdh_init _ _ (
        string-Exact _ _ _ (λ client_ephemeral h0.
          (finish-Exact {A = KexEcdhInit} (record { client_ephemeral = client_ephemeral }) _
            (rw (append-nil (wire_string client_ephemeral)) (h0, refl))))))
      h

-- A `KexEcdhReply` that decodes from a payload of bytes has fields that fit the wire, and the payload
-- is exactly the encoding of those fields.
pub kex_ecdh_reply_decode-wire :
    (payload : Bytes) (m : KexEcdhReply)
    → All IsByte payload
    → kex_ecdh_reply_decode payload ≡ ok m
    → IsKexEcdhReply m × (kex_ecdh_reply_wire m ≡ payload)
unfolding kex_ecdh_reply_decode
kex_ecdh_reply_decode-wire payload m bytes h =
    decode-Exact kex_ecdh_reply_fields (λ m p. IsKexEcdhReply m × (kex_ecdh_reply_wire m ≡ p))
      payload m bytes
      (message-Exact Msg.kex_ecdh_reply _ _ (
        string-Exact _ _ _ (λ host_key_blob h0.
          (string-Exact _ _ _ (λ server_ephemeral h1.
            (string-Exact _ _ _ (λ signature_blob h2.
              (finish-Exact {A = KexEcdhReply}
                (record {
                  host_key_blob = host_key_blob;
                  server_ephemeral = server_ephemeral;
                  signature_blob = signature_blob;
                })
                _ (rw (append-nil (wire_string signature_blob)) ((h0, h1, h2), refl))))))))))
      h
