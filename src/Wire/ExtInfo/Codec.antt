-- ===== src/Wire/ExtInfo/Codec.antt =====
-- crates/tatami_ssh_wire/src/ext_info.rs: the wire form of the message, from the encoder to the copy.
use tatami_ssh.Prelude.{
  ℕ, suc, ◌+◌, ◌*◌, ◌/◌, ◌^◌, ◌≤◌, ◌<◌, ◌≡◌, refl, sym, ap, subst, ◌∙◌, arith, false, true, List,
  [], ◌∷◌, ◌++◌, All, Bytes, ok, done, length, length-append, append_assoc, append-nil, leb, ltb,
  le→ltb, ◌>>=◌, pure, take,
}
use tatami_ssh.Wire.Bytes.{to_be32, wire_string, IsString}
use tatami_ssh.Wire.Msg
use tatami_ssh.Wire.Reader
use tatami_ssh.Wire.Reader.{Reader, remaining, remaining_len, is_empty, read_u32, read_string}
use tatami_ssh.Wire.Reader.Parses.{
  Parses, advance, remaining-advance, remaining_len-eq, read_u32-Parses, read_string-Parses,
}
use tatami_ssh.Wire.Writer.{write_u8, write_u32, write_string}
use tatami_ssh.Wire.Writer.Emits.{
  Emits, >>-Emits, write_u8-Emits, write_u32-Emits, write_string-Emits,
}
use tatami_ssh.Wire.Writer.NameLists.{pure-Emits}
use tatami_ssh.Wire.Message.{decode, Parser, finish, field}
use tatami_ssh.Wire.Message.Accepts.{field-Parses, expect_message-Parses, >>=-Parses, pure-Parses}
use tatami_ssh.Wire.Message.Encodes.{Encoded, encode-Encoded}
use tatami_ssh.Wire.ExtInfo.{
  ExtInfo, Pair, read_pair, read_count, ext_info_fields, ext_info_decode, ext_info_writes,
  write_pairs, encode_ext_info, walk, walked, validate, to_owned,
}
use tatami_ssh.Wire.ExtInfo.Walk.{Valid, Pairs, none_left, one_more}
use tatami_ssh.Wire.ExtInfo.Owned.{to_owned-Valid}

abbrev pub IsPair : Pair → Type 0
IsPair p = IsString p.0 × IsString p.1

abbrev pub wire_pairs : List Pair → Bytes
wire_pairs [] = []
wire_pairs (p ∷ ps) = wire_string p.0 ++ (wire_string p.1 ++ wire_pairs ps)

abbrev pub ext_info_wire : List Pair → Bytes
ext_info_wire ps = (Msg.ext_info ∷ []) ++ (to_be32 (length ps) ++ wire_pairs ps)

write_pairs-Emits : (ps : List Pair) → All IsPair ps → Emits (write_pairs ps) (wire_pairs ps)
unfolding write_pairs
write_pairs-Emits [] h = pure-Emits
write_pairs-Emits ((n, v) ∷ ps) ((hn, hv), h) =
    >>-Emits (write_string n) _ (wire_string n) _ (write_string-Emits n hn) (
      >>-Emits (write_string v) _ (wire_string v) _ (write_string-Emits v hv)
        (write_pairs-Emits ps h))

ext_info-Emits : (ps : List Pair) → All IsPair ps → Emits (ext_info_writes ps) (ext_info_wire ps)
unfolding ext_info_writes
ext_info-Emits ps h =
    >>-Emits (write_u8 Msg.ext_info) _ (Msg.ext_info ∷ []) _ (write_u8-Emits Msg.ext_info) (
      >>-Emits (write_u32 (length ps)) _ _ _ (write_u32-Emits (length ps)) (write_pairs-Emits ps h))

pub encode_ext_info-Encoded :
    (ps : List Pair) (out : Bytes)
    → All IsPair ps
    → length ps < 2 ^ 32
    → length (ext_info_wire ps) ≤ length out
    → Encoded (encode_ext_info ps out) out (ext_info_wire ps)
unfolding encode_ext_info
encode_ext_info-Encoded ps out h small fits =
    let few : leb (2 ^ 32) (length ps) ≡ false = ground arith in
    rw few (encode-Encoded (ext_info_writes ps) (ext_info_wire ps) out (ext_info-Emits ps h) fits)

last-Parses :
    {A : Type 0} (m : Parser A) (bs : Bytes) (a : A) → Parses m (bs ++ []) a → Parses m bs a
last-Parses m bs a p = subst (λ x. Parses m x a) (append-nil bs) p

read_pair-Parses :
    (n v : Bytes)
    → IsString n
    → IsString v
    → Parses read_pair (wire_string n ++ wire_string v) (n, v)
unfolding read_pair
read_pair-Parses n v hn hv =
    >>=-Parses (field "extension-name" read_string) _ (wire_string n) (wire_string v) n (n, v)
      (field-Parses "extension-name" read_string (wire_string n) n (read_string-Parses n hn))
      (last-Parses (field "extension-value" read_string >>= (λ value. pure (n, value)))
        (wire_string v) (n, v)
        (>>=-Parses (field "extension-value" read_string) (λ value. pure (n, value)) (wire_string v)
          [] v (n, v)
          (field-Parses "extension-value" read_string (wire_string v) v (read_string-Parses v hv))
          (pure-Parses (n, v))))

not_empty : (r : Reader) → 0 < remaining_len r → is_empty r ≡ false
unfolding is_empty
not_empty r h = ground arith

walk_step :
    (claimed n found : ℕ) (r u : Reader) (p : Pair)
    → is_empty r ≡ false
    → read_pair r ≡ done p u
    → walk claimed (suc n) found r ≡ walk claimed n (found + 1) u
unfolding walk
walk_step claimed n found r u p e d = rw (e, d) refl

-- The walk and the pairs of a reader that stands before the wire form of `ps`, the last bytes.
walk-wire :
    (claimed found : ℕ) (ps : List Pair) (r : Reader)
    → All IsPair ps
    → remaining r ≡ wire_pairs ps
    → r.pos + length (wire_pairs ps) ≡ length r.input
    → (w : Reader) × (walk claimed (length ps) found r ≡ ok w)
      × Pairs r ps w
      × (w.pos ≡ length w.input)
unfolding walk
walk-wire claimed found [] r h e at = (r, refl, none_left r, omega arith)
walk-wire claimed found ((n, v) ∷ ps) r ((hn, hv), h) e at =
    let first = wire_string n ++ wire_string v in
    let split = append_assoc (wire_string n) (wire_string v) (wire_pairs ps) in
    let e' : remaining r ≡ first ++ wire_pairs ps = e ∙ sym split in
    let u = advance r (length first) in
    let d = read_pair-Parses n v hn hv r (wire_pairs ps) e' in
    let more = not_empty r (omega (arith, remaining_len-eq r _ e)) in
    let at' : u.pos + length (wire_pairs ps) ≡ length u.input =
      omega (arith, ap length split, length-append first (wire_pairs ps)) in
    let (w, k, pairs, end) =
      walk-wire claimed (found + 1) ps u h (remaining-advance r first (wire_pairs ps) e') at' in
    (
      w,
      walk_step claimed (length ps) found r u (n, v) more d ∙ k,
      one_more r u w (n, v) ps d pairs,
      end,
    )

finish-end : (w : Reader) → w.pos ≡ length w.input → finish w ≡ done tt w
unfolding finish Reader.finish is_empty
finish-end w h = ground arith

wire_pairs-room : (ps : List Pair) → 8 * length ps ≤ length (wire_pairs ps)
wire_pairs-room [] = omega arith
wire_pairs-room ((n, v) ∷ ps) = omega (
  arith,
  length-append n (wire_string v ++ wire_pairs ps),
  length-append v (wire_pairs ps),
  wire_pairs-room ps,
)

read_count-at :
    (r u : Reader) (claimed : ℕ)
    → field "nr-extensions" read_u32 r ≡ done claimed u
    → 8 * claimed ≤ remaining_len u
    → read_count r ≡ done (record { claimed = claimed; count = claimed; body = u }) u
unfolding read_count
read_count-at r u claimed e room =
    let fits : leb claimed (remaining_len u / 8) ≡ true = ground arith in
    rw (e, fits, read_count) refl

-- What the decoder makes of the wire form.
pub record Decoded (ps : List Pair) : Type 0 where
  pub info : ExtInfo
  pub decoded : ext_info_decode (ext_info_wire ps) ≡ ok info
  pub count : info.count ≡ length ps
  pub body : remaining info.body ≡ wire_pairs ps
  pub end : info.body.pos + length (wire_pairs ps) ≡ length info.body.input

decode-done :
    {A : Type 0} (fields : Parser A) (payload : Bytes) (a : A) (u : Reader)
    → fields (Reader.new payload) ≡ done a u
    → decode fields payload ≡ ok a
unfolding decode
decode-done fields payload a u e = rw (e, decode) refl

decode-ext_info_wire : (ps : List Pair) → length ps < 2 ^ 32 → Decoded ps
unfolding ext_info_decode ext_info_fields
decode-ext_info_wire ps small =
    let wire = ext_info_wire ps in
    let r = Reader.new wire in
    let first = expect_message-Parses Msg.ext_info r (to_be32 (length ps) ++ wire_pairs ps) refl in
    let u = advance r 1 in
    let counted =
      field-Parses "nr-extensions" read_u32 (to_be32 (length ps)) (length ps)
        (read_u32-Parses (length ps) small) u (wire_pairs ps) refl in
    let w = advance u 4 in
    record {
      info = record { claimed = length ps; count = length ps; body = w };
      decoded =
          decode-done ext_info_fields wire
            (record { claimed = length ps; count = length ps; body = w }) w
            (rw first (read_count-at u w (length ps) counted (omega (arith, wire_pairs-room ps))));
      count = refl;
      body = refl;
      end = omega arith;
    }

-- The encoder writes the message, and the decoder, the validation and the copy give the pairs back.
pub record RoundTrip (ps : List Pair) (max : ℕ) (out : Bytes) : Type 0 where
  pub encoded : Encoded (encode_ext_info ps out) out (ext_info_wire ps)
  pub info : ExtInfo
  pub decoded : ext_info_decode (take (length (ext_info_wire ps)) encoded.buffer) ≡ ok info
  pub validated : validate info max ≡ ok (length ps)
  pub owned : to_owned info max ≡ ok ps

validate-walk :
    (e : ExtInfo) (max : ℕ) (w u : Reader)
    → e.count ≤ max
    → walk e.claimed e.count 0 e.body ≡ ok w
    → finish w ≡ done tt u
    → validate e max ≡ ok e.count
unfolding validate walked
validate-walk e max w u le k f =
    let few : ltb max e.count ≡ false = le→ltb max e.count le in rw (few, k, f, walked) refl

-- Pairs whose names and values fit a `string`, fewer than 2^32 and at most `max` of them, encode into
-- a buffer with room for them; the bytes written decode, `validate` with the limit `max` counts
-- exactly these pairs, and `to_owned` returns them in order.
pub ext_info-RoundTrip :
    (ps : List Pair) (max : ℕ) (out : Bytes)
    → All IsPair ps
    → length ps < 2 ^ 32
    → length ps ≤ max
    → length (ext_info_wire ps) ≤ length out
    → RoundTrip ps max out
ext_info-RoundTrip ps max out h small le fits =
    let encoded = encode_ext_info-Encoded ps out h small fits in
    let d = decode-ext_info_wire ps small in
    let (w, k, pairs, end) = walk-wire d.info.claimed 0 ps d.info.body h d.body d.end in
    let f = finish-end w end in
    let v = validate-walk d.info max w w (omega (arith, d.count)) (rw d.count k) f in
    let valid : Valid d.info max ps = record {
      end = w;
      after = w;
      pairs = pairs;
      at_end = f;
      count = sym d.count;
      bounded = omega (arith, d.count);
    } in
    record {
      encoded = encoded;
      info = d.info;
      decoded = ap ext_info_decode encoded.front ∙ d.decoded;
      validated = v ∙ ap ok d.count;
      owned = to_owned-Valid d.info max ps d.info.count v valid;
    }
