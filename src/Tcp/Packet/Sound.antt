-- ===== src/Tcp/Packet/Sound.antt =====
-- crates/tatami_ssh_tcp/src/packet.rs: which bytes the decoder takes for a packet.
use tatami_ssh.Prelude.{
  ℕ, ◌+◌, ◌-◌, ◌%◌, ◌≤◌, ◌<◌, ◌≡◌, refl, ◌∙◌, arith, [], ◌∷◌, ◌++◌, Bytes, IsByte, All, ok, Option,
  some, none, length, take, drop, get_or, sym, ap, zero, suc, take-append-drop, length-take_le,
  drop-drop, All-take, length-drop,
}
use tatami_ssh.Wire.Bytes.{from_be, to_be32, to_be32-from_be}
use tatami_ssh.Tcp.Packet.{
  PacketLimits, InitialPacket, complete, payload_len, decode_body, decode_length,
  decode_initial_packet,
}

-- The packet `p` stands at the front of `buf`.
pub record Frames (buf : Bytes) (limits : PacketLimits) (p : InitialPacket) : Type 0 where
  pub rest : Bytes
  pub bytes :
      buf ≡ to_be32 (p.total_len - 4) ++ (length p.padding ∷ (p.payload ++ (p.padding ++ rest)))
  pub total : p.total_len ≡ 5 + length p.payload + length p.padding
  pub padding_min : 4 ≤ length p.padding
  pub padding_max : length p.padding < 256
  pub aligned : p.total_len % 8 ≡ 0
  pub least : 16 ≤ p.total_len
  pub most : p.total_len ≤ limits.max_packet_length + 4

decode_body-inv :
    (buf : Bytes) (n pad : ℕ) (o : Option ℕ) (p : InitialPacket)
    → decode_body buf n pad o ≡ ok (complete p)
    → (k : ℕ) × (o ≡ some k)
      × (4 ≤ pad)
      × (n + 4 ≤ length buf)
      × (p.payload ≡ take k (drop 5 buf))
      × (p.padding ≡ take (n + 4 - (5 + k)) (drop (5 + k) buf))
      × (p.total_len ≡ n + 4)
unfolding decode_body
decode_body-inv buf n pad none p h = cc
decode_body-inv buf n pad (some k) p h =
    let (least, room) : (4 ≤ pad) × (n + 4 ≤ length buf) = ground arith in
    let same : record {
      payload = take k (drop 5 buf);
      padding = take (n + 4 - (5 + k)) (drop (5 + k) buf);
      total_len = n + 4;
    }
        ≡ p =
      ground arith in
    rw (← same) (k, refl, least, room, refl, refl, refl)

decode_length-inv :
    (buf : Bytes) (n : ℕ) (limits : PacketLimits) (p : InitialPacket)
    → decode_length buf n limits ≡ ok (complete p)
    → (n ≤ limits.max_packet_length)
      × (16 ≤ n + 4)
      × ((n + 4) % 8 ≡ 0)
      × (5 ≤ length buf)
      × (decode_body buf n (get_or buf 4 0) (payload_len n (get_or buf 4 0)) ≡ ok (complete p))
unfolding decode_length
decode_length-inv buf n limits p h = ground arith

decode_initial_packet-inv :
    (buf : Bytes) (limits : PacketLimits) (p : InitialPacket)
    → decode_initial_packet buf limits ≡ ok (complete p)
    → (4 ≤ length buf) × (decode_length buf (from_be (take 4 buf)) limits ≡ ok (complete p))
unfolding decode_initial_packet
decode_initial_packet-inv buf limits p h = ground arith

drop-get_or : (i : ℕ) (bs : Bytes) → i < length bs → drop i bs ≡ get_or bs i 0 ∷ drop (suc i) bs
drop-get_or i [] h = absurd (omega arith)
drop-get_or zero (b ∷ bs) h = refl
drop-get_or (suc i) (b ∷ bs) h = drop-get_or i bs (omega arith)

-- The four parts of a buffer, and what is behind them.
parts :
    (buf : Bytes) (k j : ℕ)
    → 5 ≤ length buf
    → buf
      ≡ take 4 buf
        ++ (get_or buf 4 0
            ∷ (take k (drop 5 buf) ++ (take j (drop (5 + k) buf) ++ drop j (drop (5 + k) buf))))
parts buf k j h =
    sym (take-append-drop 4 buf)
    ∙ ap (λ t. take 4 buf ++ t)
        (drop-get_or 4 buf (omega arith)
          ∙ ap (λ t. get_or buf 4 0 ∷ t)
              (sym (take-append-drop k (drop 5 buf))
                ∙ ap (λ t. take k (drop 5 buf) ++ t)
                    (drop-drop 5 k buf ∙ sym (take-append-drop j (drop (5 + k) buf)))))

payload_len-inv : (a b k : ℕ) → payload_len a b ≡ some k → a ≡ b + 1 + k
unfolding payload_len
payload_len-inv a b k h = ground arith

get_or-IsByte : (i : ℕ) (bs : Bytes) → All IsByte bs → get_or bs i 0 < 256
get_or-IsByte i [] h = omega arith
get_or-IsByte zero (b ∷ bs) h = h.0
get_or-IsByte (suc i) (b ∷ bs) h = get_or-IsByte i bs h.1

Frames-parts :
    (buf : Bytes) (limits : PacketLimits) (n pad k j : ℕ)
    → All IsByte buf
    → to_be32 n ≡ take 4 buf
    → get_or buf 4 0 ≡ pad
    → n ≡ pad + 1 + k
    → j ≡ pad
    → 4 ≤ pad
    → n + 4 ≤ length buf
    → (n + 4) % 8 ≡ 0
    → 16 ≤ n + 4
    → n ≤ limits.max_packet_length
    → Frames buf limits (record {
      payload = take k (drop 5 buf);
      padding = take j (drop (5 + k) buf);
      total_len = n + 4;
    })
Frames-parts buf limits n pad k j bytes field byte sum same pad4 room aligned least most =
    let pl : length (take k (drop 5 buf)) ≡ k =
      length-take_le k (drop 5 buf) (omega (arith, length-drop 5 buf)) in
    let ql : length (take j (drop (5 + k) buf)) ≡ pad =
      length-take_le j (drop (5 + k) buf) (omega (arith, length-drop (5 + k) buf)) ∙ same in
    let front : n + 4 - 4 ≡ n = omega arith in
    record {
      rest = drop j (drop (5 + k) buf);
      bytes =
          rw (ql, front, ← byte)
            (parts buf k j (omega arith)
              ∙ ap
                  (λ t.
                    t
                    ++ (get_or buf 4 0
                        ∷ (take k (drop 5 buf)
                            ++ (take j (drop (5 + k) buf) ++ drop j (drop (5 + k) buf)))))
                  (sym field));
      total = omega arith;
      padding_min = omega arith;
      padding_max = omega (arith, get_or-IsByte 4 buf bytes);
      aligned = aligned;
      least = least;
      most = omega arith;
    }

-- On a buffer of bytes, a packet that the decoder returns stands at the front of the buffer, length
-- field and padding length included: its parts fill the total length, the padding has 4 to 255
-- bytes, and the total is a multiple of 8, at least 16 and at most the limit and four.
pub decode_initial_packet-Frames :
    (buf : Bytes) (limits : PacketLimits) (p : InitialPacket)
    → All IsByte buf
    → decode_initial_packet buf limits ≡ ok (complete p)
    → Frames buf limits p
decode_initial_packet-Frames buf limits p bytes h =
    let n = from_be (take 4 buf) in
    let pad = get_or buf 4 0 in
    let (four, h') = decode_initial_packet-inv buf limits p h in
    let (most, least, aligned, five, h'') = decode_length-inv buf n limits p h' in
    let (k, ek, pad4, room, ep, eq, et) = decode_body-inv buf n pad (payload_len n pad) p h'' in
    let sum = payload_len-inv n pad k ek in
    let (field, _) =
      to_be32-from_be (take 4 buf) (length-take_le 4 buf four) (All-take IsByte 4 buf bytes) in
    let whole : p ≡ record {
      payload = take k (drop 5 buf);
      padding = take (n + 4 - (5 + k)) (drop (5 + k) buf);
      total_len = n + 4;
    } =
      cc in
    rw whole (
      Frames-parts buf limits n pad k (n + 4 - (5 + k)) bytes field refl sum (omega arith) pad4 room
        aligned least most)
