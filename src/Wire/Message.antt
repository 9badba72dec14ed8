-- ===== src/Wire/Message.antt =====
-- crates/tatami_ssh_wire/src/message.rs: the helpers of the whole-message decoders, and the frame
-- that every `decode` and `encode` of this crate has: a fresh cursor, then the fields.
pub mod Accepts
pub mod Exact
pub mod Encodes
use Prim.Native.String.{String}
use tatami_ssh.Prelude.{ℕ, Bytes, Result, ok, err, Outcome, done, fail, result, ◌==◌, if◌then◌else◌}
use tatami_ssh.Wire.Error.{
  DecodeError, EncodeError, MessageError, empty, unexpected_message, trailing_bytes,
}
use tatami_ssh.Wire.Reader
use tatami_ssh.Wire.Reader.{Reader, Read, read_u8}
use tatami_ssh.Wire.Writer
use tatami_ssh.Wire.Writer.{Write}

abbrev pub Parser : Type 0 → Type 0
Parser A = Reader → Outcome Reader MessageError A

unfoldable pub expect_message : ℕ → Parser (Unit {0})
expect_message expected r = elim (read_u8 r) [
  | fail _ r' ↦ fail empty r'
  | done found r' ↦
      if found == expected then done tt r' else fail (unexpected_message expected found) r'
]

unfoldable pub field : {A : Type 0} → String → Read A → Parser A
field name read r = elim (read r) [
  | fail error r' ↦ fail (MessageError.field name r.pos error) r'
  | done a r' ↦ done a r'
]

unfoldable pub finish : Parser (Unit {0})
finish r = elim (Reader.finish r) [ ok _ ↦ done tt r | err count ↦ fail (trailing_bytes count) r ]

-- `let mut r = Reader::new(payload)`, the fields, and the message.
unfoldable pub decode : {A : Type 0} → Parser A → Bytes → Result MessageError A
decode fields payload = result (fields (Reader.new payload))

-- `let mut w = Writer::new(out)`, the fields, and `w.position()`. The state is the caller's buffer.
unfoldable pub encode : Write → Bytes → Outcome Bytes EncodeError ℕ
encode fields out = elim (fields (Writer.new out)) [
  | done _ w ↦ done w.pos w.out
  | fail e w ↦ fail e w.out
]
