-- ===== src/Wire/Ident.antt =====
-- crates/tatami_ssh_wire/src/ident.rs: the content of an identification string.
pub mod Fields
pub mod Codec
pub mod Owned
use tatami_ssh.Prelude.{
  ℕ, zero, suc, ◌+◌, ◌-◌, Bool, true, false, not, ◌&&◌, ◌||◌, Option, none, some, List, [], ◌∷◌,
  ◌++◌, Bytes, Result, ok, err, Outcome, done, fail, ltb, ◌==◌, if◌then◌else◌, length, take, drop,
  any, bytes_eq, codes,
}
use tatami_ssh.Wire.Reader.{usize_max}
use tatami_ssh.Wire.Writer.{copy_at}

abbrev pub prefix : Bytes
prefix = codes "SSH-"

pub record Identification : Type 0 where
  pub input : Bytes
  pub protocol_version : Bytes
  pub software_version : Bytes
  pub comments : Option Bytes

pub data IdentSyntaxError : Type 0 where
  missing_prefix : IdentSyntaxError
  missing_separator : IdentSyntaxError
  bad_protocol_version : IdentSyntaxError
  bad_software_version : IdentSyntaxError
  control_character : IdentSyntaxError

unfoldable pub is_forbidden_byte : ℕ → Bool
is_forbidden_byte b = b == 13 || (b == 10 || b == 0)

unfoldable pub is_token_byte : ℕ → Bool
is_token_byte b = ltb 0x20 b && (ltb b 0x7f && not (b == b'-'))

unfoldable pub all_token_bytes : Bytes → Bool
all_token_bytes [] = true
all_token_bytes (b ∷ bs) = is_token_byte b && all_token_bytes bs

unfoldable pub is_version_token : Bytes → Bool
is_version_token [] = false
is_version_token (b ∷ bs) = all_token_bytes (b ∷ bs)

-- `strip_prefix`.
unfoldable pub strip_prefix : Bytes → Option Bytes
strip_prefix input =
    if bytes_eq (take (length prefix) input) prefix then some (drop (length prefix) input) else none

-- `iter().position(|&b| b == x)`.
unfoldable pub position : ℕ → Bytes → Option ℕ
position x [] = none
position x (b ∷ bs) =
    let rest = position x bs in
    if b == x then some 0 else elim rest [ none ↦ none | some i ↦ some (suc i) ]

-- The software version and the comments behind the first space.
unfoldable pub split_space : Bytes → Bytes × Option Bytes
split_space after = elim (position b' ' after) [
  | some sp ↦ (take sp after, some (drop (sp + 1) after))
  | none ↦ (after, none)
]

-- The part of `parse` behind the separator.
unfoldable pub parse_software :
    Bytes → Bytes → Bytes × Option Bytes → Result IdentSyntaxError Identification
parse_software input protocol (software, comments) =
    if not (is_version_token software)
    then err bad_software_version
    else ok (record {
      input = input;
      protocol_version = protocol;
      software_version = software;
      comments = comments;
    })

-- The part of `parse` behind the prefix.
unfoldable pub parse_rest : Bytes → Bytes → Option ℕ → Result IdentSyntaxError Identification
parse_rest input rest none = err missing_separator
parse_rest input rest (some dash) =
    if not (is_version_token (take dash rest))
    then err bad_protocol_version
    else parse_software input (take dash rest) (split_space (drop (dash + 1) rest))

unfoldable pub parse_content : Bytes → Option Bytes → Result IdentSyntaxError Identification
parse_content input none = err missing_prefix
parse_content input (some rest) = parse_rest input rest (position b'-' rest)

-- `Identification::parse`.
unfoldable pub parse : Bytes → Result IdentSyntaxError Identification
parse input =
    if any is_forbidden_byte input
    then err control_character
    else parse_content input (strip_prefix input)

abbrev pub as_bytes : Identification → Bytes
as_bytes id = id.input

pub data ProtocolVersionClass : Type 0 where
  ssh2 : ProtocolVersionClass
  ssh2_compatibility : ProtocolVersionClass
  other : ProtocolVersionClass

unfoldable pub classify_protocol_version : Bytes → ProtocolVersionClass
classify_protocol_version token =
    if bytes_eq token (codes "2.0")
    then ssh2
    else if bytes_eq token (codes "1.99")
    then ssh2_compatibility
    else other

unfoldable pub protocol_version_class : Identification → ProtocolVersionClass
protocol_version_class id = classify_protocol_version id.protocol_version

abbrev pub comments_forbidden : Option Bytes → Bool
comments_forbidden none = false
comments_forbidden (some c) = any is_forbidden_byte c

abbrev pub checked_add : Option ℕ → ℕ → Option ℕ
checked_add none b = none
checked_add (some a) b = if ltb usize_max (a + b) then none else some (a + b)

unfoldable pub encoded_len : Bytes → Bytes → Option Bytes → Option ℕ
encoded_len protocol software comments =
    if not (is_version_token protocol) || not (is_version_token software)
    then none
    else if comments_forbidden comments
    then none
    else let n = checked_add (checked_add (some (length prefix)) (length protocol)) 1 in
      let m = checked_add n (length software) in
      elim comments [ none ↦ m | some c ↦ checked_add (checked_add m 1) (length c) ]

pub data IdentEncodeError : Type 0 where
  bad_protocol : IdentEncodeError
  bad_software : IdentEncodeError
  bad_comments : IdentEncodeError
  insufficient_capacity : (needed available : ℕ) → IdentEncodeError
  length_overflow : IdentEncodeError

-- The loop over the parts: the position and the buffer behind it.
unfoldable pub write_parts : ℕ → List Bytes → Bytes → ℕ × Bytes
write_parts pos [] out = (pos, out)
write_parts pos (part ∷ parts) out = write_parts (pos + length part) parts (copy_at pos part out)

abbrev pub parts_of : Bytes → Bytes → Option Bytes → List Bytes
parts_of protocol software none = prefix ∷ protocol ∷ (b'-' ∷ []) ∷ software ∷ []
parts_of protocol software (some c) =
    prefix ∷ protocol ∷ (b'-' ∷ []) ∷ software ∷ (b' ' ∷ []) ∷ c ∷ []

-- The writes of `encode`, the space and the comments last.
unfoldable pub encode_into : List Bytes → Bytes → Option ℕ → Outcome Bytes IdentEncodeError ℕ
encode_into parts out none = fail length_overflow out
encode_into parts out (some needed) =
    if ltb (length out) needed
    then fail (insufficient_capacity needed (length out)) out
    else let (pos, written) = write_parts 0 parts out in done pos written

unfoldable pub encode : Bytes → Bytes → Option Bytes → Bytes → Outcome Bytes IdentEncodeError ℕ
unfolding encode_into
encode protocol software comments out =
    if not (is_version_token protocol)
    then fail bad_protocol out
    else if not (is_version_token software)
    then fail bad_software out
    else if comments_forbidden comments
    then fail bad_comments out
    else encode_into (parts_of protocol software comments) out
        (encoded_len protocol software comments)

-- `OwnedIdentification`: the bytes, and where the fields end.
pub record OwnedIdentification : Type 0 where
  pub bytes : Bytes
  pub protocol_end : ℕ
  pub software_end : ℕ
  pub has_comments : Bool

unfoldable pub from_borrowed : Identification → OwnedIdentification
from_borrowed id =
    let protocol_end = length prefix + length id.protocol_version in
    record {
      bytes = id.input;
      protocol_end = protocol_end;
      software_end = protocol_end + 1 + length id.software_version;
      has_comments = elim id.comments [ none ↦ false | some _ ↦ true ];
    }

-- `bytes[a..b]`.
abbrev pub slice : ℕ → ℕ → Bytes → Bytes
slice a b bytes = take (b - a) (drop a bytes)

unfoldable pub as_borrowed : OwnedIdentification → Identification
as_borrowed o = record {
  input = o.bytes;
  protocol_version = slice (length prefix) o.protocol_end o.bytes;
  software_version = slice (o.protocol_end + 1) o.software_end o.bytes;
  comments = if o.has_comments then some (drop (o.software_end + 1) o.bytes) else none;
}

unfoldable pub parse_owned : Bytes → Result IdentSyntaxError OwnedIdentification
parse_owned input = elim (parse input) [ ok id ↦ ok (from_borrowed id) | err e ↦ err e ]
