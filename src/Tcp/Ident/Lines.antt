-- ===== src/Tcp/Ident/Lines.antt =====
-- crates/tatami_ssh_tcp/src/ident.rs: the theorems at concrete lines.
use tatami_ssh.Prelude.{◌≡◌, refl, [], ◌∷◌, ◌++◌, Bytes, ok, done, codes, bytes_eq}
use tatami_ssh.Tcp.Ident.{
  default_limits, new, prelude, cr_lf, byte_len, starts_identification, terminator_at, find_line,
  feed_prelude, feed_found, feed, build_identification,
}
use tatami_ssh.Wire.Ident.{
  position, encoded_len, encode, is_version_token, all_token_bytes, is_token_byte, write_parts,
}

-- A banner before the identification.
abbrev a_banner : Bytes
a_banner = codes "hello" ++ (13 ∷ 10 ∷ codes "SSH-2.0-x")

a_banner-fed :
    feed a_banner (new default_limits)
    ≡ done
        (prelude (codes "hello") cr_lf 7)
        (record { limits = default_limits; prelude_lines = 1; prelude_bytes = 7 })
unfolding feed feed_found feed_prelude find_line terminator_at starts_identification position
    byte_len bytes_eq
a_banner-fed = refl

own_line : build_identification (codes "tatami") ≡ ok (codes "SSH-2.0-tatami" ++ (13 ∷ 10 ∷ []))
unfolding build_identification encoded_len encode is_version_token all_token_bytes is_token_byte
    write_parts
own_line = refl
