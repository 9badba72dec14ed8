-- ===== src/Wire/Examples.antt =====
-- crates/tatami_ssh_wire/src/primitives.rs and namelist.rs: the theorems at concrete bytes.
use tatami_ssh.Prelude.{
  ◌+◌, some, true, ◌≡◌, refl, arith, Bytes, List, [], ◌∷◌, ◌++◌, done, ok, length, Unchanged, All,
}
use tatami_ssh.Wire.Bytes.{to_be32}
use tatami_ssh.Wire.NameList.{names, parse, is_valid_name, all_name_bytes, is_name_byte}
use tatami_ssh.Wire.NameList.Join.{IsName, join, names-parse-join}
use tatami_ssh.Wire.NameList.Pieces.{parse_sound}
use tatami_ssh.Wire.Reader.{
  Reader, read_bytes, read_u8, read_bool, read_u32, read_u64, read_string, read_mpint,
  read_name_list,
}
use tatami_ssh.Wire.Reader.Cursor.{read-Unchanged}
use tatami_ssh.Wire.Writer.{
  Writer, write_name_list, write_mpint_positive, mpint_positive_len, needs_pad,
}
use tatami_ssh.Wire.Writer.Emits.{Wrote}
use tatami_ssh.Wire.Mpint.{strip_leading_zeros, positive_magnitude, is_canonical}
use tatami_ssh.Wire.Writer.Mpints.{mpint_body, write_mpint_positive-Wrote}
use tatami_ssh.Wire.Writer.NameLists.{write_name_list-Wrote}

abbrev two_names : List Bytes
two_names = (97 ∷ []) ∷ (98 ∷ []) ∷ []

two_names-IsName : All IsName two_names
unfolding is_valid_name all_name_bytes is_name_byte
two_names-IsName = (refl, (refl, tt))

names-parse-join_example :
    (parse (join two_names) ≡ ok (record { body = join two_names }))
    × (names (record { body = join two_names }) ≡ two_names)
names-parse-join_example = names-parse-join two_names two_names-IsName

parse_sound_example :
    (join two_names ≡ join two_names)
    × All IsName (names (record { body = join two_names }))
    × (join (names (record { body = join two_names })) ≡ join two_names)
parse_sound_example =
    parse_sound (join two_names) (record { body = join two_names })
      (names-parse-join two_names two_names-IsName).0

abbrev short : Reader
short = record { input = 0 ∷ 0 ∷ 0 ∷ 9 ∷ 1 ∷ []; pos = 0 }

read-Unchanged_example :
    Unchanged short (read_bytes 9 short)
    × Unchanged short (read_u8 short)
    × Unchanged short (read_bool short)
    × Unchanged short (read_u32 short)
    × Unchanged short (read_u64 short)
    × Unchanged short (read_string short)
    × Unchanged short (read_mpint short)
    × Unchanged short (read_name_list short)
read-Unchanged_example = read-Unchanged short 9

abbrev blank : Bytes
blank = 0 ∷ 0 ∷ 0 ∷ 0 ∷ 0 ∷ 0 ∷ 0 ∷ 0 ∷ []

write_name_list-Wrote_example :
    (w' : Writer) × (write_name_list two_names (record { out = blank; pos = 0 }) ≡ done tt w')
    × Wrote
        (record { out = blank; pos = 0 })
        (to_be32 (length (join two_names)) ++ join two_names)
        w'
unfolding join
write_name_list-Wrote_example =
    write_name_list-Wrote two_names (record { out = blank; pos = 0 }) two_names-IsName (omega arith)
      (record { pos_le = omega arith }) (omega arith)

abbrev high : Bytes
high = 0 ∷ 128 ∷ 1 ∷ []

write_mpint_positive-Wrote_example :
    ((w' : Writer) × (write_mpint_positive high (record { out = blank; pos = 0 }) ≡ done tt w')
      × Wrote
          (record { out = blank; pos = 0 })
          (to_be32 (length (mpint_body high)) ++ mpint_body high)
          w')
    × (is_canonical (record { bytes = mpint_body high }) ≡ true)
    × (positive_magnitude (record { bytes = mpint_body high }) ≡ some (strip_leading_zeros high))
    × (mpint_positive_len high ≡ 4 + length (mpint_body high))
unfolding strip_leading_zeros needs_pad
write_mpint_positive-Wrote_example =
    write_mpint_positive-Wrote high (record { out = blank; pos = 0 }) (omega arith)
      (record { pos_le = omega arith }) (omega arith)
