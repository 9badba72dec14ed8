-- ===== src/Tcp/Packet/Decisions.antt =====
-- crates/tatami_ssh_tcp/src/packet.rs: what the decoder has decided, and on how much input.
use tatami_ssh.Prelude.{
  ℕ, ◌+◌, ◌-◌, ◌%◌, ◌≤◌, ◌<◌, ◌≡◌, refl, ◌∙◌, arith, ◌++◌, Bytes, Result, ok, err, ltb, ◌==◌, not,
  Option, some, none, length, take, drop, length-append, get_or, if_elim, drop-append_le,
  take-append_le, ltb→lt, ltb→le, length-drop, le→ltb, get_or-append,
}
use tatami_ssh.Wire.Bytes.{from_be}
use tatami_ssh.Tcp.Packet.{
  PacketLimits, PacketStep, PacketError, InitialPacket, complete, need_more, payload_len,
  decode_body, decode_length, decode_initial_packet, bad_padding, too_large, too_small, misaligned,
  usize_max,
}

-- What the decoder has made of `buf`, and what it makes of `buf ++ more`.
pub data Decision (buf more : Bytes) (limits : PacketLimits)
    : Result PacketError PacketStep → Type 0 where
  waits_for_length : length buf < 4 → Decision buf more limits (ok (need_more none))
  waits_for_packet :
      (n : ℕ)
      → 4 ≤ length buf
      → n ≡ from_be (take 4 buf) + 4
      → length buf < n
      → 16 ≤ n
      → n % 8 ≡ 0
      → n ≤ limits.max_packet_length + 4
      → Decision buf more limits (ok (need_more (some n)))
  completed :
      (packet : InitialPacket)
      → packet.total_len ≡ from_be (take 4 buf) + 4
      → 16 ≤ packet.total_len
      → packet.total_len ≤ length buf
      → decode_initial_packet (buf ++ more) limits ≡ ok (complete packet)
      → Decision buf more limits (ok (complete packet))
  refused :
      (e : PacketError)
      → 4 ≤ length buf
      → decode_initial_packet (buf ++ more) limits ≡ err e
      → Decision buf more limits (err e)

payload_len-some : (a b k : ℕ) → payload_len a b ≡ some k → a ≡ b + 1 + k
unfolding payload_len
payload_len-some a b k h = ground arith

take-drop-append :
    (i k : ℕ) (xs ys : Bytes)
    → i ≤ length xs
    → k ≤ length xs - i
    → take k (drop i (xs ++ ys)) ≡ take k (drop i xs)
take-drop-append i k xs ys h g =
    rw (drop-append_le i xs ys h)
      (take-append_le k (drop i xs) ys (omega (arith, length-drop i xs)))

-- The stages, on a buffer and on a longer one.
body-Decision :
    (buf more : Bytes) (limits : PacketLimits) (n pad : ℕ) (o : Option ℕ)
    → payload_len n pad ≡ o
    → n ≡ from_be (take 4 buf)
    → 4 ≤ length buf
    → 16 ≤ n + 4
    → (n + 4) % 8 ≡ 0
    → n ≤ limits.max_packet_length
    → decode_initial_packet (buf ++ more) limits ≡ decode_body (buf ++ more) n pad o
    → Decision buf more limits (decode_body buf n pad o)
unfolding decode_body
body-Decision buf more limits n pad none p len r h al m e = refused (bad_padding n pad) r e
body-Decision buf more limits n pad (some k) p len r h al m e =
    let P = Decision buf more limits in
    let sum = payload_len-some n pad k p in
    let longer = length-append buf more in
    if_elim P (ltb pad 4) _ _ (λ a. refused (bad_padding n pad) r (e ∙ ground arith))
      (λ a.
        if_elim P (ltb (length buf) (n + 4)) _ _
          (λ b.
            waits_for_packet (n + 4) r (omega arith) (ltb→lt (length buf) (n + 4) b) h al
              (omega arith))
          (λ b.
            let room = ltb→le (length buf) (n + 4) b in
            let small = le→ltb (length (buf ++ more)) (n + 4) (omega arith) in
            completed
              (record {
                payload = take k (drop 5 buf);
                padding = take (n + 4 - (5 + k)) (drop (5 + k) buf);
                total_len = n + 4;
              })
              (omega arith) h room
              (e
                ∙ rw
                    (
                      a,
                      small,
                      take-drop-append 5 k buf more (omega arith) (omega arith),
                      take-drop-append (5 + k) (n + 4 - (5 + k)) buf more (omega arith)
                          (omega arith),
                    )
                    refl)))

length-Decision :
    (buf more : Bytes) (limits : PacketLimits) (n : ℕ)
    → n ≡ from_be (take 4 buf)
    → 4 ≤ length buf
    → decode_initial_packet (buf ++ more) limits ≡ decode_length (buf ++ more) n limits
    → Decision buf more limits (decode_length buf n limits)
unfolding decode_length
length-Decision buf more limits n len h e =
    let P = Decision buf more limits in
    let m = limits.max_packet_length in
    let longer = length-append buf more in
    if_elim P (ltb m n) _ _ (λ a. refused (too_large n m) h (e ∙ ground arith))
      (λ a.
        if_elim P (ltb (n + 4) 16) _ _ (λ b. refused (too_small n) h (e ∙ ground arith))
          (λ b.
            if_elim P (not ((n + 4) % 8 == 0)) _ _
              (λ c. refused (misaligned n) h (e ∙ ground arith))
              (λ c.
                if_elim P (ltb usize_max (n + 4)) _ _
                  (λ d. refused (too_large n m) h (e ∙ ground arith))
                  (λ d.
                    if_elim P (ltb (length buf) 5) _ _
                      (λ f.
                        waits_for_packet (n + 4) h (omega arith) (ground arith)
                          (ltb→le (n + 4) 16 b) (ground arith) (ground arith))
                      (λ f.
                        let pad = get_or buf 4 0 in
                        let room = ltb→le (length buf) 5 f in
                        let same = get_or-append 4 buf more 0 (omega arith) in
                        let small = le→ltb (length (buf ++ more)) 5 (omega arith) in
                        body-Decision buf more limits n pad (payload_len n pad) refl len h
                          (ltb→le (n + 4) 16 b) (ground arith) (ltb→le m n a)
                          (e ∙ rw (a, b, c, d, small, same) refl))))))

-- The decoder asks for more input only where the packet is not yet in the buffer. It names no length
-- exactly while fewer than the four bytes of the length field are there; from four bytes on it names
-- the length field and four, which is more than the buffer holds, a multiple of 8, at least 16 and at
-- most the limit and four. A packet that it returns has that length too and lies inside the buffer. A
-- packet or an error, which need at least the four bytes, is what the decoder returns on every longer buffer too.
pub decode_initial_packet-Decision :
    (buf more : Bytes) (limits : PacketLimits)
    → Decision buf more limits (decode_initial_packet buf limits)
unfolding decode_initial_packet
decode_initial_packet-Decision buf more limits =
    if_elim (Decision buf more limits) (ltb (length buf) 4) _ _
      (λ h. waits_for_length (ltb→lt (length buf) 4 h))
      (λ h. length-Decision buf more limits (from_be (take 4 buf)) refl (ltb→le (length buf) 4 h) (
        rw
          (
            le→ltb (length (buf ++ more)) 4
                (omega (arith, length-append buf more, ltb→le (length buf) 4 h)),
            take-append_le 4 buf more (ltb→le (length buf) 4 h),
          )
          refl))
