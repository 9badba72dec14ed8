-- ===== src/Tcp/Ident/Limits.antt =====
-- crates/tatami_ssh_tcp/src/ident.rs: what one call of `feed` returns, and the limits that it keeps.
use tatami_ssh.Prelude.{ℕ, ◌+◌, ◌≤◌, ◌<◌, ◌≡◌, ◌≢◌, none, Bytes, Outcome, done, fail, length, take}
use tatami_ssh.Tcp.Ident.{
  LineTerminator, Identification, IdentError, prelude_line_too_long, too_many_prelude_lines,
  prelude_bytes_exceeded, identification_too_long, invalid_identification, unsupported_version,
  IdentStep, need_more, prelude, identification, IdentificationReader, starts_identification,
  saturating_add, max, line_limit,
}
use tatami_ssh.Wire.Ident.{prefix, position}
use tatami_ssh.Tcp.Ident.Scan.{IsLine}
use tatami_ssh.Tcp.Ident.Content.{IsIdentified, Refusal}

-- The counts of the reader are within its limits.
pub record IsWithin (r : IdentificationReader) : Type 0 where
  pub lines : r.prelude_lines ≤ r.limits.max_prelude_lines
  pub bytes : r.prelude_bytes ≤ r.limits.max_prelude_bytes

-- The line of the buffer is refused for its content.
pub record IsRefused (buf : Bytes) (e : IdentError) : Type 0 where
  pub starts : take 4 buf ≡ prefix
  pub line : Bytes
  pub terminator : LineTerminator
  pub consumed : ℕ
  pub found : IsLine buf line terminator consumed
  pub refused : Refusal line e

-- Why `feed` fails.
abbrev pub Reason : Bytes → IdentificationReader → IdentError → Type 0
Reason buf r prelude_line_too_long =
    (take 4 buf ≢ prefix) × (r.limits.max_prelude_line ≤ length buf)
Reason buf r too_many_prelude_lines =
    (take 4 buf ≢ prefix) × (r.limits.max_prelude_lines ≤ r.prelude_lines)
Reason buf r prelude_bytes_exceeded =
    (take 4 buf ≢ prefix) × (r.limits.max_prelude_bytes < r.prelude_bytes + length buf)
Reason buf r identification_too_long =
    (take 4 buf ≡ prefix) × (r.limits.max_identification_line ≤ length buf)
Reason buf r (invalid_identification e) = IsRefused buf (invalid_identification e)
Reason buf r unsupported_version = IsRefused buf unsupported_version

-- A step of the reader over a line before the identification.
pub record IsCounted (buf line : Bytes) (t : LineTerminator) (consumed : ℕ)
    (r r' : IdentificationReader) : Type 0 where
  pub other : take 4 buf ≢ prefix
  pub found : IsLine buf line t consumed
  pub within_line : consumed ≤ r.limits.max_prelude_line
  pub same_limits : r'.limits ≡ r.limits
  pub counted_line : r'.prelude_lines ≡ r.prelude_lines + 1
  pub counted_bytes : r'.prelude_bytes ≡ saturating_add r.prelude_bytes consumed
  pub within : IsWithin r'

-- A step over the identification.
pub record IsAccepted (buf : Bytes) (id : Identification) (consumed : ℕ)
    (r r' : IdentificationReader) : Type 0 where
  pub starts : take 4 buf ≡ prefix
  pub found : IsLine buf id.line id.terminator consumed
  pub identified : IsIdentified id
  pub within_line : consumed ≤ r.limits.max_identification_line
  pub same : r' ≡ r

-- No line ends in the buffer, and there is room for more.
pub record IsWaiting (buf : Bytes) (r r' : IdentificationReader) : Type 0 where
  pub no_line : position 10 buf ≡ none
  pub below : length buf < line_limit r.limits (starts_identification buf)
  pub below_both : length buf < max r.limits.max_prelude_line r.limits.max_identification_line
  pub same : r' ≡ r

abbrev pub Fed :
    Bytes → IdentificationReader → Outcome IdentificationReader IdentError IdentStep → Type 0
Fed buf r (done need_more r') = IsWaiting buf r r'
Fed buf r (done (prelude line t consumed) r') = IsCounted buf line t consumed r r'
Fed buf r (done (identification id consumed) r') = IsAccepted buf id consumed r r'
Fed buf r (fail e r') = Reason buf r e × (r' ≡ r)
