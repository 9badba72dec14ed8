-- ===== src/Wire/Kex.antt =====
-- crates/tatami_ssh_wire/src/kex.rs: the messages of the ECDH key exchange. `x_fields` and `x_writes`
-- are the bodies of `X::decode` and `X::encode` between their first and last line.
pub mod Codec
pub mod Strict
use tatami_ssh.Prelude.{ℕ, Bool, Bytes, Result, Outcome, ◌>>=◌, ◌>>◌, pure, done}
use tatami_ssh.Wire.Error.{EncodeError, MessageError}
use tatami_ssh.Wire.Msg
use tatami_ssh.Wire.Reader.{read_bool, read_u32, read_string, remaining}
use tatami_ssh.Wire.Writer.{Write, write_u8, write_bool, write_u32, write_string, write_bytes}
use tatami_ssh.Wire.Message.{Parser, expect_message, field, finish, decode, encode}

pub record KexEcdhInit : Type 0 where
  pub client_ephemeral : Bytes

pub kex_ecdh_init_fields : Parser KexEcdhInit
kex_ecdh_init_fields = do
  expect_message Msg.kex_ecdh_init
  client_ephemeral ← field "Q_C" read_string
  finish
  pure (record { client_ephemeral = client_ephemeral })

unfoldable pub kex_ecdh_init_decode : Bytes → Result MessageError KexEcdhInit
unfolding kex_ecdh_init_fields
kex_ecdh_init_decode = decode kex_ecdh_init_fields

pub kex_ecdh_init_writes : KexEcdhInit → Write
kex_ecdh_init_writes m = do write_u8 Msg.kex_ecdh_init; write_string m.client_ephemeral

unfoldable pub kex_ecdh_init_encode : KexEcdhInit → Bytes → Outcome Bytes EncodeError ℕ
unfolding kex_ecdh_init_writes
kex_ecdh_init_encode m = encode (kex_ecdh_init_writes m)

pub record KexEcdhReply : Type 0 where
  pub host_key_blob : Bytes
  pub server_ephemeral : Bytes
  pub signature_blob : Bytes

pub kex_ecdh_reply_fields : Parser KexEcdhReply
kex_ecdh_reply_fields = do
  expect_message Msg.kex_ecdh_reply
  host_key_blob ← field "K_S" read_string
  server_ephemeral ← field "Q_S" read_string
  signature_blob ← field "signature" read_string
  finish
  pure (record {
    host_key_blob = host_key_blob;
    server_ephemeral = server_ephemeral;
    signature_blob = signature_blob;
  })

unfoldable pub kex_ecdh_reply_decode : Bytes → Result MessageError KexEcdhReply
unfolding kex_ecdh_reply_fields
kex_ecdh_reply_decode = decode kex_ecdh_reply_fields

pub kex_ecdh_reply_writes : KexEcdhReply → Write
kex_ecdh_reply_writes m = do
  write_u8 Msg.kex_ecdh_reply
  write_string m.host_key_blob
  write_string m.server_ephemeral
  write_string m.signature_blob

unfoldable pub kex_ecdh_reply_encode : KexEcdhReply → Bytes → Outcome Bytes EncodeError ℕ
unfolding kex_ecdh_reply_writes
kex_ecdh_reply_encode m = encode (kex_ecdh_reply_writes m)

-- `NewKeys` has no field.
pub newkeys_fields : Parser (Unit {0})
newkeys_fields = do expect_message Msg.newkeys; finish; pure tt

unfoldable pub newkeys_decode : Bytes → Result MessageError (Unit {0})
unfolding newkeys_fields
newkeys_decode = decode newkeys_fields

unfoldable pub newkeys_encode : Bytes → Outcome Bytes EncodeError ℕ
newkeys_encode = encode (write_u8 Msg.newkeys)
