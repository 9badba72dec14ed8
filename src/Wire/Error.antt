-- ===== src/Wire/Error.antt =====
-- crates/tatami_ssh_wire/src/error.rs: the error types of the codecs. Their texts are not modelled.
use Prim.Native.String.{String}
use tatami_ssh.Prelude.{ℕ}

-- The number is the offset within the body of the name list.
pub data InvalidEncoding : Type 0 where
  name_list_non_ascii : ℕ → InvalidEncoding
  name_list_empty_name : ℕ → InvalidEncoding

pub data DecodeError : Type 0 where
  truncated : (needed available : ℕ) → DecodeError
  length_overflow : (claimed available : ℕ) → DecodeError
  invalid_encoding : InvalidEncoding → DecodeError

pub data EncodeError : Type 0 where
  insufficient_capacity : (needed available : ℕ) → EncodeError
  length_overflow : (len : ℕ) → EncodeError
  invalid_name : (index : ℕ) → EncodeError

pub data MessageError : Type 0 where
  empty : MessageError
  unexpected_message : (expected found : ℕ) → MessageError
  field : (name : String) → (offset : ℕ) → (error : DecodeError) → MessageError
  trailing_bytes : (count : ℕ) → MessageError
