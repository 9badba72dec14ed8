-- ===== src/Wire/Ident/Owned.antt =====
-- crates/tatami_ssh_wire/src/ident.rs: the owned copy of an identification.
use tatami_ssh.Prelude.{
  ◌+◌, ◌-◌, ◌≡◌, refl, sym, ap, ◌∙◌, subst, arith, Option, none, some, ◌∷◌, ◌++◌, Bytes, ok, length,
  take, drop, take-append, length-append, append_assoc,
}
use tatami_ssh.Wire.Ident.{
  Identification, OwnedIdentification, prefix, slice, parse, from_borrowed, as_borrowed,
  parse_owned,
}
use tatami_ssh.Wire.Ident.Fields.{tail_wire, ident_wire, drop-past, parse-IsContent}

abbrev content : Bytes → Bytes → Option Bytes → Identification
content p s c = record {
  input = ident_wire p s c;
  protocol_version = p;
  software_version = s;
  comments = c;
}

slice-protocol :
    (p s : Bytes) (c : Option Bytes)
    → slice (length prefix) (length prefix + length p) (ident_wire p s c) ≡ p
slice-protocol p s c =
    let n : (length prefix + length p) - length prefix ≡ length p = omega arith in
    ap (λ k. take k (p ++ (b'-' ∷ (s ++ tail_wire c)))) n
    ∙ take-append p (b'-' ∷ (s ++ tail_wire c))

drop-separator :
    (p s : Bytes) (c : Option Bytes)
    → drop (length prefix + length p + 1) (ident_wire p s c) ≡ s ++ tail_wire c
drop-separator p s c =
    ap (λ k. drop (k + 1) (ident_wire p s c)) (sym (length-append prefix p))
    ∙ drop-past b'-' (prefix ++ p) (s ++ tail_wire c)

slice-software :
    (p s : Bytes) (c : Option Bytes)
    → slice
        (length prefix + length p + 1)
        (length prefix + length p + 1 + length s)
        (ident_wire p s c)
      ≡ s
slice-software p s c =
    let start = length prefix + length p + 1 in
    let n : (start + length s) - start ≡ length s = omega arith in
    ap (λ k. take k (drop start (ident_wire p s c))) n
    ∙ ap (take (length s)) (drop-separator p s c)
    ∙ take-append s (tail_wire c)

drop-comments :
    (p s c : Bytes)
    → drop (length prefix + length p + 1 + length s + 1) (ident_wire p s (some c)) ≡ c
drop-comments p s c =
    let front = prefix ++ (p ++ (b'-' ∷ s)) in
    let n : length prefix + length p + 1 + length s ≡ length front =
      omega (arith, length-append p (b'-' ∷ s)) in
    ap (λ k. drop (k + 1) (ident_wire p s (some c))) n
    ∙ ap (λ k. drop (length front + 1) (prefix ++ k)) (sym (append_assoc p (b'-' ∷ s) (b' ' ∷ c)))
    ∙ drop-past b' ' front c

as_borrowed-content :
    (p s : Bytes) (c : Option Bytes) → as_borrowed (from_borrowed (content p s c)) ≡ content p s c
unfolding as_borrowed from_borrowed
as_borrowed-content p s none =
    rw (slice-protocol p s none, slice-software p s none, as_borrowed) refl
as_borrowed-content p s (some c) =
    rw (slice-protocol p s (some c), slice-software p s (some c), drop-comments p s c, as_borrowed)
      refl

-- Where `Identification::parse` returns a view of the input, `OwnedIdentification::parse` returns an
-- owned copy, and borrowing from that copy gives the same view back, field by field.
pub parse_owned-as_borrowed :
    (input : Bytes) (id : Identification)
    → parse input ≡ ok id
    → (o : OwnedIdentification) × (parse_owned input ≡ ok o) × (as_borrowed o ≡ id)
unfolding parse_owned
parse_owned-as_borrowed input id h =
    let (fields, stored, wire) = parse-IsContent input id h in
    let p = id.protocol_version in
    let s = id.software_version in
    let c = id.comments in
    (
      from_borrowed id,
      rw (h, parse_owned) refl,
      subst
          (λ k.
            as_borrowed (
              from_borrowed
                (record { input = k; protocol_version = p; software_version = s; comments = c }))
            ≡ record { input = k; protocol_version = p; software_version = s; comments = c })
          (wire ∙ sym stored) (as_borrowed-content p s c),
    )
