-- ===== src/Wire/Identities.antt =====
-- crates/tatami_ssh_wire/src/ident.rs: the theorems at concrete identification strings.
use tatami_ssh.Prelude.{
  ℕ, zero, suc, ◌≡◌, refl, arith, some, [], ◌∷◌, Bytes, ok, done, length, take, codes, bytes_eq,
}
use tatami_ssh.Wire.Ident.{
  Identification, OwnedIdentification, ssh2_compatibility, parse, encode, parse_owned, as_borrowed,
  classify_protocol_version, is_forbidden_byte, is_token_byte, all_token_bytes, is_version_token,
  strip_prefix, position, split_space, parse_software, parse_rest, parse_content,
}
use tatami_ssh.Wire.Ident.Fields.{IsContent, ident_wire, parse-IsContent}
use tatami_ssh.Wire.Ident.Codec.{encode-parse}
use tatami_ssh.Wire.Ident.Owned.{parse_owned-as_borrowed}

abbrev zeros : ℕ → Bytes
zeros zero = []
zeros (suc n) = 0 ∷ zeros n

abbrev a_line : Bytes
a_line = codes "SSH-2.0-tatami_0.1 a b"

abbrev an_ident : Identification
an_ident = record {
  input = a_line;
  protocol_version = codes "2.0";
  software_version = codes "tatami_0.1";
  comments = some (codes "a b");
}

a_line-parses : parse a_line ≡ ok an_ident
unfolding parse parse_content parse_rest parse_software split_space position strip_prefix
    is_version_token all_token_bytes is_token_byte is_forbidden_byte bytes_eq
a_line-parses = refl

old_server : classify_protocol_version (codes "1.99") ≡ ssh2_compatibility
unfolding classify_protocol_version bytes_eq
old_server = refl

parse-IsContent_example :
    IsContent (codes "2.0") (codes "tatami_0.1") (some (codes "a b"))
    × (a_line ≡ a_line)
    × (ident_wire (codes "2.0") (codes "tatami_0.1") (some (codes "a b")) ≡ a_line)
parse-IsContent_example = parse-IsContent a_line an_ident a_line-parses

parse_owned-as_borrowed_example :
    (o : OwnedIdentification) × (parse_owned a_line ≡ ok o) × (as_borrowed o ≡ an_ident)
parse_owned-as_borrowed_example = parse_owned-as_borrowed a_line an_ident a_line-parses

encode-parse_example :
    (n : ℕ) × (written : Bytes) × (encode (codes "2.0") (codes "x") (some (codes "y z")) (zeros 20)
      ≡ done n written)
    × (n ≡ 13)
    × (length written ≡ 20)
    × (parse (take n written)
        ≡ ok (record {
          input = take n written;
          protocol_version = codes "2.0";
          software_version = codes "x";
          comments = some (codes "y z");
        }))
unfolding is_version_token all_token_bytes is_token_byte is_forbidden_byte
encode-parse_example =
    encode-parse (codes "2.0") (codes "x") (some (codes "y z")) (zeros 20) refl refl refl
      (omega arith) (omega arith)
