-- ===== src/Tcp/Ident/Content.antt =====
-- crates/tatami_ssh_tcp/src/ident.rs: which lines `parse_identification` accepts, and why it refuses.
use tatami_ssh.Prelude.{
  ◌≡◌, ◌≢◌, refl, sym, ◌∙◌, subst, Bytes, Result, ok, err, codes, bytes_eq, bytes_eq_iff, if_elim,
  false,
}
use tatami_ssh.Wire.Ident
use tatami_ssh.Wire.Ident.{
  IdentSyntaxError, classify_protocol_version, protocol_version_class, parse,
}
use tatami_ssh.Wire.Ident.Fields.{IsContent, ident_wire, parse-IsContent}
use tatami_ssh.Tcp.Ident.{
  LineTerminator, VersionSupport, ssh2, ssh2_compatibility, Identification, IdentError,
  invalid_identification, unsupported_version, syntax_error, supported, with_support,
  parse_identification,
}

abbrev pub version_of : VersionSupport → Bytes
version_of ssh2 = codes "2.0"
version_of ssh2_compatibility = codes "1.99"

-- The fields of an identification are those of its line.
pub record IsIdentified (id : Identification) : Type 0 where
  pub content : IsContent id.protocol_version id.software_version id.comments
  pub wire : ident_wire id.protocol_version id.software_version id.comments ≡ id.line
  pub version : id.protocol_version ≡ version_of id.support

-- Why a line is refused.
pub data Refusal (line : Bytes) : IdentError → Type 0 where
  syntax :
      (e : IdentSyntaxError)
      → parse line ≡ err e
      → Refusal line (invalid_identification (syntax_error e))
  policy :
      (content : Ident.Identification)
      → parse line ≡ ok content
      → content.protocol_version ≢ codes "2.0"
      → content.protocol_version ≢ codes "1.99"
      → Refusal line unsupported_version

abbrev pub Parsed : Bytes → LineTerminator → Result IdentError Identification → Type 0
Parsed line t (ok id) = IsIdentified id × (id.line ≡ line) × (id.terminator ≡ t)
Parsed line t (err e) = Refusal line e

abbrev Version : Bytes → Result IdentError VersionSupport → Type 0
Version token (ok s) = token ≡ version_of s
Version token (err e) = (e ≡ unsupported_version) × (token ≢ codes "2.0") × (token ≢ codes "1.99")

differs : (xs ys : Bytes) → bytes_eq xs ys ≡ false → xs ≢ ys
differs xs ys f e = let t = (bytes_eq_iff xs ys).1 e in absurd cc

supported-Version : (token : Bytes) → Version token (supported (classify_protocol_version token))
unfolding classify_protocol_version
supported-Version token =
    if_elim (λ c. Version token (supported c)) (bytes_eq token (codes "2.0")) _ _
      (λ t. (bytes_eq_iff token (codes "2.0")).0 t)
      (λ f.
        if_elim (λ c. Version token (supported c)) (bytes_eq token (codes "1.99")) _ _
          (λ t. (bytes_eq_iff token (codes "1.99")).0 t)
          (λ g. (refl, differs token (codes "2.0") f, differs token (codes "1.99") g)))

with_support-Parsed :
    (line : Bytes) (t : LineTerminator) (content : Ident.Identification)
    (o : Result IdentError VersionSupport)
    → parse line ≡ ok content
    → Version content.protocol_version o
    → Parsed line t (with_support content t o)
with_support-Parsed line t content (ok s) h v =
    let (fields, stored, wire) = parse-IsContent line content h in
    (record { content = fields; wire = wire ∙ sym stored; version = v }, stored, refl)
with_support-Parsed line t content (err e) h (same, a, b) =
    subst (Refusal line) (sym same) (policy content h a b)

parse_identification-cases :
    (line : Bytes) (t : LineTerminator) (o : Result IdentSyntaxError Ident.Identification)
    → parse line ≡ o
    → Parsed line t (parse_identification line t)
unfolding parse_identification protocol_version_class
parse_identification-cases line t (err e) h =
    let run : parse_identification line t ≡ err (invalid_identification (syntax_error e)) =
      rw (h, parse_identification) refl in
    subst (Parsed line t) (sym run) (syntax e h)
parse_identification-cases line t (ok content) h =
    let run : parse_identification line t
        ≡ with_support content t (supported (protocol_version_class content)) =
      rw (h, parse_identification) refl in
    subst (Parsed line t) (sym run)
      (with_support-Parsed line t content _ h (supported-Version content.protocol_version))

pub parse_identification-Parsed :
    (line : Bytes) (t : LineTerminator) → Parsed line t (parse_identification line t)
parse_identification-Parsed line t = parse_identification-cases line t (parse line) refl
