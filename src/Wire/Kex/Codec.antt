-- ===== src/Wire/Kex/Codec.antt =====
-- crates/tatami_ssh_wire/src/kex.rs: the wire form of each message, from the encoder to the decoder.
use tatami_ssh.Prelude.{◌≤◌, ◌≡◌, [], ◌∷◌, ◌++◌, Bytes, ok, length}
use tatami_ssh.Wire.Bytes.{wire_string, IsString}
use tatami_ssh.Wire.Msg
use tatami_ssh.Wire.Writer.{write_u8, write_string}
use tatami_ssh.Wire.Writer.Emits.{Emits, >>-Emits, write_u8-Emits, write_string-Emits}
use tatami_ssh.Wire.Message.Accepts.{
  Accepts, message-Accepts, last-Accepts, string-Accepts, finish-Accepts, decode-Accepts,
}
use tatami_ssh.Wire.Message.Encodes.{Encoded, encode-Encoded}
use tatami_ssh.Wire.Kex.{
  KexEcdhInit, kex_ecdh_init_fields, kex_ecdh_init_decode, kex_ecdh_init_writes,
  kex_ecdh_init_encode, KexEcdhReply, kex_ecdh_reply_fields, kex_ecdh_reply_decode,
  kex_ecdh_reply_writes, kex_ecdh_reply_encode,
}

-- What the encoder puts on the wire, and the fields that fit there.
abbrev pub kex_ecdh_init_wire : KexEcdhInit → Bytes
kex_ecdh_init_wire m = (Msg.kex_ecdh_init ∷ []) ++ ((wire_string m.client_ephemeral))

abbrev pub IsKexEcdhInit : KexEcdhInit → Type 0
IsKexEcdhInit m = IsString m.client_ephemeral

pub kex_ecdh_init-Emits :
    (m : KexEcdhInit) → IsKexEcdhInit m → Emits (kex_ecdh_init_writes m) (kex_ecdh_init_wire m)
unfolding kex_ecdh_init_writes
kex_ecdh_init-Emits m h =
    (>>-Emits (write_u8 Msg.kex_ecdh_init) _ _ _ (write_u8-Emits Msg.kex_ecdh_init)
      (write_string-Emits m.client_ephemeral h))

kex_ecdh_init-Accepts :
    (m : KexEcdhInit) → IsKexEcdhInit m → Accepts kex_ecdh_init_fields (kex_ecdh_init_wire m) m
unfolding kex_ecdh_init_fields
kex_ecdh_init-Accepts m h =
    message-Accepts Msg.kex_ecdh_init _ _ _
      (last-Accepts _ _ m (string-Accepts m.client_ephemeral h _ _ _ _ (finish-Accepts m)))

pub decode-kex_ecdh_init_wire :
    (m : KexEcdhInit) → IsKexEcdhInit m → kex_ecdh_init_decode (kex_ecdh_init_wire m) ≡ ok m
unfolding kex_ecdh_init_decode
decode-kex_ecdh_init_wire m h =
    decode-Accepts kex_ecdh_init_fields (kex_ecdh_init_wire m) m (kex_ecdh_init-Accepts m h)

pub kex_ecdh_init-Encoded :
    (m : KexEcdhInit) (out : Bytes)
    → IsKexEcdhInit m
    → length (kex_ecdh_init_wire m) ≤ length out
    → Encoded (kex_ecdh_init_encode m out) out (kex_ecdh_init_wire m)
unfolding kex_ecdh_init_encode
kex_ecdh_init-Encoded m out h fits =
    encode-Encoded (kex_ecdh_init_writes m) (kex_ecdh_init_wire m) out (kex_ecdh_init-Emits m h)
      fits

-- What the encoder puts on the wire, and the fields that fit there.
abbrev pub kex_ecdh_reply_wire : KexEcdhReply → Bytes
kex_ecdh_reply_wire m =
    (Msg.kex_ecdh_reply ∷ [])
    ++ ((wire_string m.host_key_blob)
        ++ ((wire_string m.server_ephemeral) ++ ((wire_string m.signature_blob))))

abbrev pub IsKexEcdhReply : KexEcdhReply → Type 0
IsKexEcdhReply m =
    IsString m.host_key_blob × IsString m.server_ephemeral × IsString m.signature_blob

pub kex_ecdh_reply-Emits :
    (m : KexEcdhReply) → IsKexEcdhReply m → Emits (kex_ecdh_reply_writes m) (kex_ecdh_reply_wire m)
unfolding kex_ecdh_reply_writes
kex_ecdh_reply-Emits m h =
    (>>-Emits (write_u8 Msg.kex_ecdh_reply) _ _ _ (write_u8-Emits Msg.kex_ecdh_reply) (
      >>-Emits (write_string m.host_key_blob) _ _ _ (write_string-Emits m.host_key_blob h.0) (
        >>-Emits (write_string m.server_ephemeral) _ _ _ (write_string-Emits m.server_ephemeral h.1)
          (write_string-Emits m.signature_blob h.2))))

kex_ecdh_reply-Accepts :
    (m : KexEcdhReply) → IsKexEcdhReply m → Accepts kex_ecdh_reply_fields (kex_ecdh_reply_wire m) m
unfolding kex_ecdh_reply_fields
kex_ecdh_reply-Accepts m h = message-Accepts Msg.kex_ecdh_reply _ _ _ (
    string-Accepts m.host_key_blob h.0 _ _ _ _ (
      string-Accepts m.server_ephemeral h.1 _ _ _ _
        (last-Accepts _ _ m (string-Accepts m.signature_blob h.2 _ _ _ _ (finish-Accepts m)))))

pub decode-kex_ecdh_reply_wire :
    (m : KexEcdhReply) → IsKexEcdhReply m → kex_ecdh_reply_decode (kex_ecdh_reply_wire m) ≡ ok m
unfolding kex_ecdh_reply_decode
decode-kex_ecdh_reply_wire m h =
    decode-Accepts kex_ecdh_reply_fields (kex_ecdh_reply_wire m) m (kex_ecdh_reply-Accepts m h)

pub kex_ecdh_reply-Encoded :
    (m : KexEcdhReply) (out : Bytes)
    → IsKexEcdhReply m
    → length (kex_ecdh_reply_wire m) ≤ length out
    → Encoded (kex_ecdh_reply_encode m out) out (kex_ecdh_reply_wire m)
unfolding kex_ecdh_reply_encode
kex_ecdh_reply-Encoded m out h fits =
    encode-Encoded (kex_ecdh_reply_writes m) (kex_ecdh_reply_wire m) out (kex_ecdh_reply-Emits m h)
      fits
