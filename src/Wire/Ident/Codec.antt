-- ===== src/Wire/Ident/Codec.antt =====
-- crates/tatami_ssh_wire/src/ident.rs: what `encode` writes parses back.
use tatami_ssh.Prelude.{
  ℕ, ◌+◌, ◌≤◌, ◌≡◌, refl, sym, ap, ◌∙◌, arith, true, false, Option, none, some, List, [], ◌∷◌, ◌++◌,
  Bytes, ok, done, length, take, any, &&_inv, length-append, append_assoc, append-nil, subst,
}
use tatami_ssh.Wire.Reader.{usize_max}
use tatami_ssh.Wire.Writer.{copy_at}
use tatami_ssh.Wire.Writer.Emits.{length-copy_at, written-copy_at}
use tatami_ssh.Wire.Ident.{
  prefix, is_forbidden_byte, is_token_byte, all_token_bytes, parse, comments_forbidden, checked_add,
  encoded_len, write_parts, parts_of, encode_into, encode,
}
use tatami_ssh.Wire.Ident.Fields.{
  IsToken, IsContent, tail_wire, ident_wire, token-all, parse-ident_wire,
}

abbrev joined : List Bytes → Bytes
joined [] = []
joined (part ∷ parts) = part ++ joined parts

-- What a loop of writes leaves: the parts behind what stood before them, in a buffer of the same
-- length.
record Written (pos : ℕ) (bs out : Bytes) (after : ℕ × Bytes) : Type 0 where
  pub moved : after.0 ≡ pos + length bs
  pub same_length : length (after.1) ≡ length out
  pub appended : take (after.0) (after.1) ≡ take pos out ++ bs

write_parts-Written :
    (pos : ℕ) (parts : List Bytes) (out : Bytes)
    → pos + length (joined parts) ≤ length out
    → Written pos (joined parts) out (write_parts pos parts out)
unfolding write_parts
write_parts-Written pos [] out h = record {
  moved = omega arith;
  same_length = refl;
  appended = sym (append-nil (take pos out));
}
write_parts-Written pos (part ∷ parts) out h =
    let total = length-append part (joined parts) in
    let fits : pos + length part ≤ length out = omega arith in
    let kept = length-copy_at pos part out fits in
    let ih = write_parts-Written (pos + length part) parts (copy_at pos part out) (omega arith) in
    record {
      moved = omega (arith, ih.moved);
      same_length = ih.same_length ∙ kept;
      appended =
          ih.appended
          ∙ ap (λ k. k ++ joined parts) (written-copy_at pos part out fits)
          ∙ append_assoc (take pos out) part (joined parts);
    }

joined-parts_of : (p s : Bytes) (c : Option Bytes) → joined (parts_of p s c) ≡ ident_wire p s c
joined-parts_of p s none = refl
joined-parts_of p s (some c) = ap (λ k. prefix ++ (p ++ (b'-' ∷ (s ++ (b' ' ∷ k))))) (append-nil c)

any_cons-inv :
    (x : ℕ) (xs : Bytes)
    → any is_forbidden_byte (x ∷ xs) ≡ false
    → (is_forbidden_byte x ≡ false) × (any is_forbidden_byte xs ≡ false)
any_cons-inv x xs h = ground arith

any_cons-clean :
    (x : ℕ) (xs : Bytes)
    → is_forbidden_byte x ≡ false
    → any is_forbidden_byte xs ≡ false
    → any is_forbidden_byte (x ∷ xs) ≡ false
any_cons-clean x xs a b = ground arith

any-append :
    (xs ys : Bytes)
    → any is_forbidden_byte xs ≡ false
    → any is_forbidden_byte ys ≡ false
    → any is_forbidden_byte (xs ++ ys) ≡ false
any-append [] ys a b = b
any-append (x ∷ xs) ys a b =
    let (clear, rest) = any_cons-inv x xs a in
    any_cons-clean x (xs ++ ys) clear (any-append xs ys rest b)

token-clean : (t : Bytes) → all_token_bytes t ≡ true → any is_forbidden_byte t ≡ false
unfolding all_token_bytes is_token_byte is_forbidden_byte
token-clean [] h = refl
token-clean (b ∷ bs) h =
    let (a, r) = &&_inv (is_token_byte b) (all_token_bytes bs) h in
    let clear : is_forbidden_byte b ≡ false = ground arith in
    any_cons-clean b bs clear (token-clean bs r)

tail_wire-clean :
    (c : Option Bytes) → comments_forbidden c ≡ false → any is_forbidden_byte (tail_wire c) ≡ false
unfolding is_forbidden_byte
tail_wire-clean none h = refl
tail_wire-clean (some c) h = any_cons-clean b' ' c refl h

pub tokens-IsContent :
    (p s : Bytes) (c : Option Bytes)
    → IsToken p
    → IsToken s
    → comments_forbidden c ≡ false
    → IsContent p s c
unfolding is_forbidden_byte
tokens-IsContent p s c hp hs hc = record {
  protocol_token = hp;
  software_token = hs;
  clean =
      any-append p (b'-' ∷ (s ++ tail_wire c)) (token-clean p (token-all p hp))
        (any-append s (tail_wire c) (token-clean s (token-all s hs)) (tail_wire-clean c hc));
}

length-ident_wire :
    (p s : Bytes) (c : Option Bytes)
    → length (ident_wire p s c) ≡ 5 + length p + length s + length (tail_wire c)
length-ident_wire p s c =
    omega (arith, length-append p (b'-' ∷ (s ++ tail_wire c)), length-append s (tail_wire c))

checked_add_ok : (a b : ℕ) → a + b ≤ usize_max → checked_add (some a) b ≡ some (a + b)
checked_add_ok a b h = ground arith

encoded_len-ident_wire :
    (p s : Bytes) (c : Option Bytes)
    → IsToken p
    → IsToken s
    → comments_forbidden c ≡ false
    → length (ident_wire p s c) ≤ usize_max
    → encoded_len p s c ≡ some (length (ident_wire p s c))
unfolding encoded_len
encoded_len-ident_wire p s none hp hs hc h =
    let n = length-ident_wire p s none in
    let q = length prefix + length p in
    rw
      (
        hp,
        hs,
        checked_add_ok (length prefix) (length p) (omega arith),
        checked_add_ok q 1 (omega arith),
        checked_add_ok (q + 1) (length s) (omega arith),
        encoded_len,
      )
      (ap some (omega arith))
encoded_len-ident_wire p s (some c) hp hs hc h =
    let n = length-ident_wire p s (some c) in
    let q = length prefix + length p in
    rw
      (
        hp,
        hs,
        hc,
        checked_add_ok (length prefix) (length p) (omega arith),
        checked_add_ok q 1 (omega arith),
        checked_add_ok (q + 1) (length s) (omega arith),
        checked_add_ok (q + 1 + length s) 1 (omega arith),
        checked_add_ok (q + 1 + length s + 1) (length c) (omega arith),
        encoded_len,
      )
      (ap some (omega arith))

encode_into-fits :
    (parts : List Bytes) (out : Bytes) (needed : ℕ)
    → needed ≤ length out
    → encode_into parts out (some needed)
      ≡ done ((write_parts 0 parts out).0) ((write_parts 0 parts out).1)
unfolding encode_into
encode_into-fits parts out needed h = ground arith

encode-runs :
    (p s : Bytes) (c : Option Bytes) (out : Bytes)
    → IsToken p
    → IsToken s
    → comments_forbidden c ≡ false
    → length (ident_wire p s c) ≤ usize_max
    → length (ident_wire p s c) ≤ length out
    → encode p s c out
      ≡ done ((write_parts 0 (parts_of p s c) out).0) ((write_parts 0 (parts_of p s c) out).1)
unfolding encode
encode-runs p s c out hp hs hc fits room =
    rw (hp, hs, hc, encoded_len-ident_wire p s c hp hs hc fits, encode)
      (encode_into-fits (parts_of p s c) out (length (ident_wire p s c)) room)

-- Two versions that are tokens and comments without a CR, LF or NUL encode into every buffer that
-- has room, if the length fits a usize: `encode` returns the length of the content and writes it at
-- the front of the buffer, whose length stays, and what was written parses back to the same fields.
pub encode-parse :
    (p s : Bytes) (c : Option Bytes) (out : Bytes)
    → IsToken p
    → IsToken s
    → comments_forbidden c ≡ false
    → length (ident_wire p s c) ≤ usize_max
    → length (ident_wire p s c) ≤ length out
    → (n : ℕ) × (written : Bytes) × (encode p s c out ≡ done n written)
      × (n ≡ length (ident_wire p s c))
      × (length written ≡ length out)
      × (parse (take n written)
          ≡ ok (record {
            input = take n written;
            protocol_version = p;
            software_version = s;
            comments = c;
          }))
encode-parse p s c out hp hs hc fits room =
    let parts = parts_of p s c in
    let after = write_parts 0 parts out in
    let same = joined-parts_of p s c in
    let w = write_parts-Written 0 parts out (omega (arith, ap length same, room)) in
    let wire : take (after.0) (after.1) ≡ ident_wire p s c = w.appended ∙ same in
    (
      after.0,
      after.1,
      encode-runs p s c out hp hs hc fits room,
      omega (arith, w.moved, ap length same),
      w.same_length,
      subst
          (λ k.
            parse k
            ≡ ok (record { input = k; protocol_version = p; software_version = s; comments = c }))
          (sym wire) (parse-ident_wire p s c (tokens-IsContent p s c hp hs hc)),
    )
