-- ===== src/Tcp/Packet/Frames.antt =====
-- crates/tatami_ssh_tcp/src/packet.rs: what the encoder frames, and what the decoder makes of it.
use tatami_ssh.Prelude.{
  ℕ, ◌+◌, ◌-◌, ◌%◌, ◌^◌, ◌≤◌, ◌<◌, ◌≡◌, refl, sym, ap, ◌∙◌, arith, [], ◌∷◌, ◌++◌, Bytes, ok, done,
  le→ltb, length, take, drop, length-append, append_assoc, take-append, drop-append, length-take_le,
  length-drop, drop-drop, some, get_or, Outcome, suc,
}
use tatami_ssh.Wire.Bytes.{to_be32, from_be-to_be32}
use tatami_ssh.Wire.Writer.{copy_at}
use tatami_ssh.Wire.Writer.Emits.{length-copy_at, written-copy_at}
use tatami_ssh.Tcp.Packet.{
  fill, PacketLimits, complete, decode_initial_packet, padding_for, write_frame,
  encode_initial_packet_with, payload_len, decode_length, decode_body, EncodeInitialError,
}

-- The least padding is between 4 and 11 bytes and completes a block of 8.
pub padding_for_bounds :
    (base : ℕ)
    → (4 ≤ padding_for base) × (padding_for base ≤ 11) × ((base + padding_for base) % 8 ≡ 0)
unfolding padding_for
padding_for_bounds base = ground arith

-- A length that passes every test of the header.
pub record Admitted (n : ℕ) (limits : PacketLimits) : Type 0 where
  pub within : n ≤ limits.max_packet_length
  pub least : 16 ≤ n + 4
  pub aligned : (n + 4) % 8 ≡ 0
  pub small : n < 2 ^ 32

pub decode_length-Admitted :
    (buf : Bytes) (n : ℕ) (limits : PacketLimits)
    → Admitted n limits
    → 5 ≤ length buf
    → decode_length buf n limits
      ≡ decode_body buf n (get_or buf 4 0) (payload_len n (get_or buf 4 0))
unfolding decode_length
decode_length-Admitted buf n limits a h = ground arith

decode_body-complete :
    (buf : Bytes) (n pad k : ℕ)
    → 4 ≤ pad
    → n + 4 ≤ length buf
    → decode_body buf n pad (some k)
      ≡ ok (
          complete (record {
            payload = take k (drop 5 buf);
            padding = take (n + 4 - (5 + k)) (drop (5 + k) buf);
            total_len = n + 4;
          }))
unfolding decode_body
decode_body-complete buf n pad k p h = ground arith

payload_len-frame : (a b : ℕ) → payload_len (a + b + 1) b ≡ some a
unfolding payload_len
payload_len-frame a b = ground arith

-- The bytes of a packet, with a length of `n`.
abbrev framed : ℕ → Bytes → Bytes → Bytes → Bytes
framed n payload padding more = to_be32 n ++ (length padding ∷ (payload ++ (padding ++ more)))

drop-framed :
    (n : ℕ) (payload padding more : Bytes)
    → drop (5 + length payload) (framed n payload padding more) ≡ padding ++ more
drop-framed n payload padding more =
    sym (drop-drop 5 (length payload) (framed n payload padding more))
    ∙ drop-append payload (padding ++ more)

decode-framed :
    (n : ℕ) (payload padding more : Bytes) (limits : PacketLimits)
    → n ≡ length payload + length padding + 1
    → 4 ≤ length padding
    → Admitted n limits
    → decode_initial_packet (framed n payload padding more) limits
      ≡ ok (complete (record { payload = payload; padding = padding; total_len = n + 4 }))
unfolding decode_initial_packet
decode-framed n payload padding more limits e p4 a =
    let buf = framed n payload padding more in
    let len : length buf ≡ 5 + (length payload + (length padding + length more)) =
      omega (arith, length-append payload (padding ++ more), length-append padding more) in
    let pad : n + 4 - (5 + length payload) ≡ length padding = omega arith in
    let fits : payload_len n (length padding) ≡ some (length payload) =
      rw e (payload_len-frame (length payload) (length padding)) in
    let short = le→ltb (length buf) 4 (omega arith) in
    let head = decode_length-Admitted buf n limits a (omega arith) in
    let body = decode_body-complete buf n (length padding) (length payload) p4 (omega arith) in
    rw
      (
        from_be-to_be32 n a.small,
        short,
        head,
        fits,
        body,
        pad,
        drop-framed n payload padding more,
        take-append,
        take-append,
      )
      refl

-- The four writes of the encoder.
write_frame-take :
    (payload : Bytes) (pad : ℕ) (fill_padding : Bytes → Bytes) (out : Bytes)
    → pad < 256
    → 4 ≤ pad
    → ((bs : Bytes) → length (fill_padding bs) ≡ length bs)
    → 5 + length payload + pad ≤ length out
    → (padding : Bytes) × (length padding ≡ pad)
      × (length (write_frame payload pad fill_padding out) ≡ length out)
      × (take (5 + length payload + pad) (write_frame payload pad fill_padding out)
          ≡ to_be32 (5 + length payload + pad - 4) ++ (pad ∷ (payload ++ padding)))
unfolding write_frame
write_frame-take payload pad fill_padding out small least keeps room =
    let n = length payload in
    let len = to_be32 (5 + n + pad - 4) in
    let a = copy_at 0 len out in
    let b = copy_at 4 ((pad % 256) ∷ []) a in
    let c = copy_at 5 payload b in
    let region = take pad (drop (5 + n) c) in
    let a_len = length-copy_at 0 len out (omega arith) in
    let b_len = length-copy_at 4 ((pad % 256) ∷ []) a (omega arith) in
    let c_len = length-copy_at 5 payload b (omega arith) in
    let rest = length-drop (5 + n) c in
    let region_len : length region ≡ pad = length-take_le pad (drop (5 + n) c) (omega arith) in
    let padding = fill_padding region in
    let filled : length padding ≡ pad = keeps region ∙ region_len in
    let d_len = length-copy_at (5 + n) padding c (omega arith) in
    let byte : pad % 256 ≡ pad = omega arith in
    let c_take = written-copy_at 5 payload b (omega arith) in
    let d_take = written-copy_at (5 + n) padding c (omega arith) in
    (
      padding,
      filled,
      d_len ∙ c_len ∙ b_len ∙ a_len,
      ap (λ k. take (5 + n + k) (copy_at (5 + n) padding c)) (sym filled)
          ∙ d_take
          ∙ ap (λ t. t ++ padding) c_take
          ∙ ap (λ x. len ++ (x ∷ (payload ++ padding))) byte,
    )

-- The limits admit every packet that the encoder can build for the payload.
abbrev pub total_for : Bytes → ℕ
total_for payload = 5 + length payload + padding_for (5 + length payload)

decode-written :
    (w payload padding more : Bytes) (pad n total : ℕ) (limits : PacketLimits)
    → w ≡ to_be32 n ++ (pad ∷ (payload ++ padding))
    → length padding ≡ pad
    → n + 4 ≡ total
    → n ≡ length payload + length padding + 1
    → 4 ≤ length padding
    → Admitted n limits
    → decode_initial_packet (w ++ more) limits
      ≡ ok (complete (record { payload = payload; padding = padding; total_len = total }))
decode-written w payload padding more pad n total limits e f g h p a =
    rw (e, sym f, sym g, append_assoc payload padding more)
      (decode-framed n payload padding more limits h p a)

-- What the encoder writes for a payload decodes to the payload, whatever follows it.
pub record Frames (payload : Bytes) (limits : PacketLimits) (out more : Bytes)
    (call : Outcome Bytes EncodeInitialError ℕ) : Type 0 where
  pub buffer : Bytes
  pub padding : Bytes
  pub encoded : call ≡ done (total_for payload) buffer
  pub size : length buffer ≡ length out
  pub padded : length padding ≡ padding_for (5 + length payload)
  pub total : total_for payload ≡ 5 + length payload + length padding
  pub enough : 4 ≤ length padding
  pub least : length padding < 4 + 8
  pub aligned : total_for payload % 8 ≡ 0
  pub at_least : 16 ≤ total_for payload
  pub decoded :
      decode_initial_packet (take (total_for payload) buffer ++ more) limits
      ≡ ok (
          complete (record { payload = payload; padding = padding; total_len = total_for payload }))

-- Where the padding callback keeps the size of its slice, the packet fits the buffer and its length
-- is within the limit and 32 bits: `encode_initial_packet_with` succeeds and keeps the size of the
-- buffer, and decoding the written bytes, with anything behind them, gives exactly the payload. The
-- packet is a multiple of 8 bytes, at least 16, and its padding is the least that does it: at least 4
-- bytes, and less than 4 and a block.
pub encode_initial_packet_with-decode :
    (payload : Bytes) (fill_padding : Bytes → Bytes) (out more : Bytes) (limits : PacketLimits)
    → ((bs : Bytes) → length (fill_padding bs) ≡ length bs)
    → total_for payload ≤ length out
    → total_for payload ≤ limits.max_packet_length + 4
    → total_for payload < 2 ^ 32 + 4
    → Frames payload limits out more (encode_initial_packet_with payload fill_padding out)
unfolding encode_initial_packet_with
encode_initial_packet_with-decode payload fill_padding out more limits keeps room within small =
    let pad = padding_for (5 + length payload) in
    let (p4, p11, aligned) = padding_for_bounds (5 + length payload) in
    let (padding, filled, size, front) =
      write_frame-take payload pad fill_padding out (omega arith) p4 keeps room in
    let n = total_for payload - 4 in
    let total : n + 4 ≡ total_for payload = omega arith in
    let a : Admitted n limits = record {
      within = omega arith;
      least = omega arith;
      aligned = rw total aligned;
      small = omega arith;
    } in
    record {
      buffer = write_frame payload pad fill_padding out;
      padding = padding;
      encoded = ground arith;
      size = size;
      padded = filled;
      total = omega (arith, filled);
      enough = omega (arith, filled);
      least = omega (arith, filled);
      aligned = aligned;
      at_least = omega arith;
      decoded =
          decode-written (take (total_for payload) (write_frame payload pad fill_padding out))
            payload padding more pad n (total_for payload) limits front filled total (omega arith)
            (omega arith) a;
    }

-- `encode_initial_packet` fills the padding with one byte.
pub length-fill : (b : ℕ) (bs : Bytes) → length (fill b bs) ≡ length bs
unfolding fill
length-fill b [] = refl
length-fill b (x ∷ xs) = ap suc (length-fill b xs)
