-- ===== src/Tcp/Packet.antt =====
-- crates/tatami_ssh_tcp/src/packet.rs: the framing of the packets before the first NEWKEYS.
pub mod Frames
pub mod Decisions
pub mod Sound
use tatami_ssh.Prelude.{
  ℕ, ◌+◌, ◌-◌, ◌%◌, ◌^◌, ◌*◌, Option, none, some, [], ◌∷◌, Bytes, Result, ok, err, Outcome, done,
  fail, ltb, leb, ◌==◌, not, if◌then◌else◌, length, take, drop, get_or,
}
use tatami_ssh.Wire.Bytes.{from_be, to_be32}
use tatami_ssh.Wire.Reader.{usize_max}
use tatami_ssh.Wire.Writer.{copy_at}

abbrev pub initial_block_size : ℕ
initial_block_size = 8

abbrev pub min_total_len : ℕ
min_total_len = 16

abbrev pub min_padding : ℕ
min_padding = 4

abbrev pub header_len : ℕ
header_len = 5

abbrev pub baseline_max_total : ℕ
baseline_max_total = 35000

pub record PacketLimits : Type 0 where
  pub max_packet_length : ℕ

-- `PacketLimits::default`.
abbrev pub default_packet_limits : PacketLimits
default_packet_limits = record { max_packet_length = 64 * 1024 }

pub record InitialPacket : Type 0 where
  pub payload : Bytes
  pub padding : Bytes
  pub total_len : ℕ

pub data PacketStep : Type 0 where
  need_more : (total_len : Option ℕ) → PacketStep
  complete : InitialPacket → PacketStep

pub data PacketError : Type 0 where
  too_large : (packet_length limit : ℕ) → PacketError
  too_small : (packet_length : ℕ) → PacketError
  misaligned : (packet_length : ℕ) → PacketError
  bad_padding : (packet_length padding_length : ℕ) → PacketError

abbrev pub checked_sub : ℕ → ℕ → Option ℕ
checked_sub a b = if leb b a then some (a - b) else none

-- `packet_length - padding_length - 1`.
unfoldable pub payload_len : ℕ → ℕ → Option ℕ
payload_len packet_length padding_length = elim (checked_sub packet_length padding_length) [
  | none ↦ none
  | some v ↦ checked_sub v 1
]

-- The part behind the padding length, where the payload's length is known.
unfoldable pub decode_body :
    Bytes → (packet_length padding_length : ℕ) → Option ℕ → Result PacketError PacketStep
decode_body buf packet_length padding_length none = err (bad_padding packet_length padding_length)
decode_body buf packet_length padding_length (some n) =
    if ltb padding_length min_padding
    then err (bad_padding packet_length padding_length)
    else if ltb (length buf) (packet_length + 4)
    then ok (need_more (some (packet_length + 4)))
    else ok (
        complete (record {
          payload = take n (drop header_len buf);
          padding = take (packet_length + 4 - (header_len + n)) (drop (header_len + n) buf);
          total_len = packet_length + 4;
        }))

-- The part behind the length field. The sum is in 64 bits and cannot overflow.
unfoldable pub decode_length : Bytes → ℕ → PacketLimits → Result PacketError PacketStep
decode_length buf packet_length limits =
    if ltb limits.max_packet_length packet_length
    then err (too_large packet_length limits.max_packet_length)
    else if ltb (packet_length + 4) min_total_len
    then err (too_small packet_length)
    else if not ((packet_length + 4) % initial_block_size == 0)
    then err (misaligned packet_length)
    else if ltb usize_max (packet_length + 4)
    then err (too_large packet_length limits.max_packet_length)
    else if ltb (length buf) header_len
    then ok (need_more (some (packet_length + 4)))
    else decode_body buf packet_length (get_or buf 4 0) (payload_len packet_length (get_or buf 4 0))

unfoldable pub decode_initial_packet : Bytes → PacketLimits → Result PacketError PacketStep
decode_initial_packet buf limits =
    if ltb (length buf) 4
    then ok (need_more none)
    else decode_length buf (from_be (take 4 buf)) limits

pub data EncodeInitialError : Type 0 where
  insufficient_capacity : (needed available : ℕ) → EncodeInitialError
  payload_too_large : EncodeInitialError

-- The least padding of at least four bytes that completes a block.
unfoldable pub padding_for : ℕ → ℕ
padding_for base =
    let padding = initial_block_size - base % initial_block_size in
    if ltb padding min_padding then padding + initial_block_size else padding

-- The writes into `out`, in order; `fill_padding` is called on the padding region.
unfoldable pub write_frame : Bytes → ℕ → (Bytes → Bytes) → Bytes → Bytes
write_frame payload padding fill_padding out =
    let at = header_len + length payload in
    let with_length = copy_at 0 (to_be32 (at + padding - 4)) out in
    let with_padding_length = copy_at 4 ((padding % 256) ∷ []) with_length in
    let with_payload = copy_at header_len payload with_padding_length in
    copy_at at (fill_padding (take padding (drop at with_payload))) with_payload

unfoldable pub encode_initial_packet_with :
    Bytes → (Bytes → Bytes) → Bytes → Outcome Bytes EncodeInitialError ℕ
unfolding padding_for write_frame
encode_initial_packet_with payload fill_padding out =
    let base = header_len + length payload in
    let padding = padding_for base in
    let total = base + padding in
    if ltb usize_max base
    then fail payload_too_large out
    else if leb (2 ^ 32) (total - 4)
    then fail payload_too_large out
    else if ltb 255 padding
    then fail payload_too_large out
    else if ltb (length out) total
    then fail (insufficient_capacity total (length out)) out
    else done total (write_frame payload padding fill_padding out)

-- `padding.fill(pad_byte)`.
unfoldable pub fill : ℕ → Bytes → Bytes
fill b [] = []
fill b (x ∷ xs) = b ∷ fill b xs

unfoldable pub encode_initial_packet : Bytes → ℕ → Bytes → Outcome Bytes EncodeInitialError ℕ
unfolding encode_initial_packet_with fill
encode_initial_packet payload pad_byte = encode_initial_packet_with payload (fill pad_byte)
