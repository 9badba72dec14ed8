-- ===== src/Tcp/Ident.antt =====
-- crates/tatami_ssh_tcp/src/ident.rs: the lines before the identification, and the identification.
pub mod Scan
pub mod Content
pub mod Limits
pub mod Lines
use tatami_ssh.Prelude.{
  ℕ, zero, suc, ◌+◌, ◌-◌, Bool, true, false, not, ◌&&◌, ◌||◌, Option, none, some, List, [], ◌∷◌,
  ◌++◌, Bytes, Result, ok, err, Outcome, done, fail, ltb, leb, ◌==◌, if◌then◌else◌, length, take,
  drop, bytes_eq, codes,
}
use tatami_ssh.Wire.Reader.{usize_max}
use tatami_ssh.Wire.Ident.{
  IdentEncodeError, IdentSyntaxError, ProtocolVersionClass, checked_add, encoded_len, encode,
  prefix, position, protocol_version_class,
}
use tatami_ssh.Wire.Ident
use tatami_ssh.Wire.Writer.{copy_at}

-- `MAX_IDENTIFICATION_LINE`.
abbrev pub max_identification_line : ℕ
max_identification_line = 255

pub record IdentLimits : Type 0 where
  pub max_prelude_lines : ℕ
  pub max_prelude_bytes : ℕ
  pub max_prelude_line : ℕ
  pub max_identification_line : ℕ

abbrev pub default_limits : IdentLimits
default_limits = record {
  max_prelude_lines = 64;
  max_prelude_bytes = 8192;
  max_prelude_line = 1024;
  max_identification_line = 255;
}

pub data LineTerminator : Type 0 where
  cr_lf : LineTerminator
  lf : LineTerminator

unfoldable pub byte_len : LineTerminator → ℕ
byte_len cr_lf = 2
byte_len lf = 1

pub data VersionSupport : Type 0 where
  ssh2 : VersionSupport
  ssh2_compatibility : VersionSupport

pub record Identification : Type 0 where
  pub line : Bytes
  pub terminator : LineTerminator
  pub protocol_version : Bytes
  pub software_version : Bytes
  pub comments : Option Bytes
  pub support : VersionSupport

pub data IdentAnomaly : Type 0 where
  lf_only_terminator : IdentAnomaly
  compatibility_version : IdentAnomaly

abbrev pub of_terminator : LineTerminator → List IdentAnomaly
of_terminator cr_lf = []
of_terminator lf = lf_only_terminator ∷ []

abbrev pub of_support : VersionSupport → List IdentAnomaly
of_support ssh2 = []
of_support ssh2_compatibility = compatibility_version ∷ []

-- `anomalies`, as the list that the iterator yields.
abbrev pub anomalies : Identification → List IdentAnomaly
anomalies id = of_terminator id.terminator ++ of_support id.support

pub data InvalidLocalIdentification : Type 0 where
  bad_software : InvalidLocalIdentification
  line_too_long : (len : ℕ) → InvalidLocalIdentification

abbrev pub zeros : ℕ → Bytes
zeros zero = []
zeros (suc n) = 0 ∷ zeros n

-- The end of `build_identification`: CR LF behind the content.
abbrev pub terminated :
    ℕ → Outcome Bytes IdentEncodeError ℕ → Result InvalidLocalIdentification Bytes
terminated content_len (fail _ _) = err bad_software
terminated content_len (done _ line) = ok (copy_at content_len (13 ∷ 10 ∷ []) line)

abbrev pub build_line : Bytes → ℕ → Option ℕ → Result InvalidLocalIdentification Bytes
build_line software content_len none = err (line_too_long usize_max)
build_line software content_len (some len) =
    if ltb max_identification_line len
    then err (line_too_long len)
    else terminated content_len (encode (codes "2.0") software none (zeros len))

unfoldable pub build_identification : Bytes → Result InvalidLocalIdentification Bytes
build_identification software = elim (encoded_len (codes "2.0") software none) [
  | none ↦ err bad_software
  | some content_len ↦ build_line software content_len (checked_add (some content_len) 2)
]

pub data InvalidIdentification : Type 0 where
  missing_separator : InvalidIdentification
  bad_protocol_version : InvalidIdentification
  bad_software_version : InvalidIdentification
  control_character : InvalidIdentification

pub data IdentError : Type 0 where
  prelude_line_too_long : IdentError
  too_many_prelude_lines : IdentError
  prelude_bytes_exceeded : IdentError
  identification_too_long : IdentError
  invalid_identification : InvalidIdentification → IdentError
  unsupported_version : IdentError

pub data IdentStep : Type 0 where
  need_more : IdentStep
  prelude : (line : Bytes) (terminator : LineTerminator) (consumed : ℕ) → IdentStep
  identification : (ident : Identification) (consumed : ℕ) → IdentStep

pub record IdentificationReader : Type 0 where
  pub limits : IdentLimits
  pub prelude_lines : ℕ
  pub prelude_bytes : ℕ

abbrev pub new : IdentLimits → IdentificationReader
new limits = record { limits = limits; prelude_lines = 0; prelude_bytes = 0 }

unfoldable pub starts_identification : Bytes → Option Bool
starts_identification buf =
    if leb (length prefix) (length buf)
    then some (bytes_eq (take (length prefix) buf) prefix)
    else if bytes_eq buf (take (length buf) prefix)
    then none
    else some false

abbrev pub ends_cr : Bytes → Bool
ends_cr (b ∷ []) = b == 13
ends_cr _ = false

-- The terminator at a given LF: `buf[lf - 1]` is the byte before it.
unfoldable pub terminator_at : ℕ → Bytes → ℕ × LineTerminator
terminator_at at buf =
    if ltb 0 at && ends_cr (take 1 (drop (at - 1) buf)) then (at - 1, cr_lf) else (at, lf)

unfoldable pub find_line : Bytes → Option (ℕ × LineTerminator)
find_line buf = elim (position 10 buf) [ none ↦ none | some at ↦ some (terminator_at at buf) ]

abbrev pub syntax_error : IdentSyntaxError → InvalidIdentification
syntax_error Ident.missing_prefix = missing_separator
syntax_error Ident.missing_separator = missing_separator
syntax_error Ident.bad_protocol_version = bad_protocol_version
syntax_error Ident.bad_software_version = bad_software_version
syntax_error Ident.control_character = control_character

abbrev pub supported : ProtocolVersionClass → Result IdentError VersionSupport
supported Ident.ssh2 = ok ssh2
supported Ident.ssh2_compatibility = ok ssh2_compatibility
supported Ident.other = err unsupported_version

-- The part of `parse_identification` behind the version policy.
abbrev pub with_support :
    Ident.Identification
    → LineTerminator
    → Result IdentError VersionSupport
    → Result IdentError Identification
with_support content terminator (err e) = err e
with_support content terminator (ok support) = ok (record {
  line = Ident.as_bytes content;
  terminator = terminator;
  protocol_version = content.protocol_version;
  software_version = content.software_version;
  comments = content.comments;
  support = support;
})

unfoldable pub parse_identification : Bytes → LineTerminator → Result IdentError Identification
parse_identification line terminator = elim (Ident.parse line) [
  | err e ↦ err (invalid_identification (syntax_error e))
  | ok content ↦ with_support content terminator (supported (protocol_version_class content))
]

abbrev pub max : ℕ → ℕ → ℕ
max a b = if ltb a b then b else a

abbrev pub saturating_add : ℕ → ℕ → ℕ
saturating_add a b = if ltb usize_max (a + b) then usize_max else a + b

abbrev pub line_limit : IdentLimits → Option Bool → ℕ
line_limit limits (some true) = limits.max_identification_line
line_limit limits (some false) = limits.max_prelude_line
line_limit limits none = max limits.max_prelude_line limits.max_identification_line

abbrev pub too_long : Option Bool → IdentError
too_long (some true) = identification_too_long
too_long _ = prelude_line_too_long

-- `feed` on a complete line that starts with the prefix.
unfoldable pub feed_identification :
    ℕ
    → Bytes
    → LineTerminator
    → IdentificationReader
    → Outcome IdentificationReader IdentError IdentStep
feed_identification consumed line terminator r =
    if ltb r.limits.max_identification_line consumed
    then fail identification_too_long r
    else elim (parse_identification line terminator) [
      | err e ↦ fail e r
      | ok ident ↦ done (identification ident consumed) r
    ]

-- `feed` on any other complete line.
unfoldable pub feed_prelude :
    ℕ
    → Bytes
    → LineTerminator
    → IdentificationReader
    → Outcome IdentificationReader IdentError IdentStep
feed_prelude consumed line terminator r =
    let total = saturating_add r.prelude_bytes consumed in
    if ltb r.limits.max_prelude_line consumed
    then fail prelude_line_too_long r
    else if leb r.limits.max_prelude_lines r.prelude_lines
    then fail too_many_prelude_lines r
    else if ltb r.limits.max_prelude_bytes total
    then fail prelude_bytes_exceeded r
    else done (prelude line terminator consumed)
        (record r { prelude_lines = r.prelude_lines + 1; prelude_bytes = total })

abbrev pub feed_line :
    Bytes
    → Option Bool
    → ℕ
    → LineTerminator
    → IdentificationReader
    → Outcome IdentificationReader IdentError IdentStep
feed_line buf (some true) n t r = feed_identification (n + byte_len t) (take n buf) t r
feed_line buf _ n t r = feed_prelude (n + byte_len t) (take n buf) t r

unfoldable pub feed_found :
    Bytes
    → Option Bool
    → Option (ℕ × LineTerminator)
    → IdentificationReader
    → Outcome IdentificationReader IdentError IdentStep
feed_found buf is_ident none r =
    if leb (line_limit r.limits is_ident) (length buf)
    then fail (too_long is_ident) r
    else done need_more r
feed_found buf is_ident (some (n, t)) r = feed_line buf is_ident n t r

unfoldable pub feed :
    Bytes → IdentificationReader → Outcome IdentificationReader IdentError IdentStep
feed buf r = feed_found buf (starts_identification buf) (find_line buf) r
