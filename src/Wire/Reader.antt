-- ===== src/Wire/Reader.antt =====
-- crates/tatami_ssh_wire/src/primitives.rs: `Reader`. A method that takes `&mut self`
-- is a function of the reader to an `Outcome`, with the reader as the method leaves it.
pub mod Parses
pub mod Sound
pub mod Cursor
use tatami_ssh.Prelude.{
  ℕ, ◌+◌, ◌-◌, ◌^◌, Bool, true, false, not, ◌||◌, Option, none, some, List, [], ◌∷◌, Bytes, Result,
  ok, err, Outcome, done, fail, ◌>>=◌, and_then, pure, ltb, ◌==◌, if◌then◌else◌, length, take, drop,
  get_or,
}
use tatami_ssh.Wire.Error.{DecodeError, truncated, length_overflow, invalid_encoding}
use tatami_ssh.Wire.Bytes.{from_be}
use tatami_ssh.Wire.Mpint.{Mpint}
use tatami_ssh.Wire.NameList
use tatami_ssh.Wire.NameList.{NameList}

pub record Reader : Type 0 where
  pub input : Bytes
  pub pos : ℕ

abbrev pub Read : Type 0 → Type 0
Read A = Reader → Outcome Reader DecodeError A

abbrev pub new : Bytes → Reader
new input = record { input = input; pos = 0 }

abbrev pub remaining : Reader → Bytes
remaining r = drop r.pos r.input

abbrev pub remaining_len : Reader → ℕ
remaining_len r = length r.input - r.pos

unfoldable pub is_empty : Reader → Bool
is_empty r = r.pos == length r.input

unfoldable pub read_bytes : ℕ → Read Bytes
read_bytes n r =
    if ltb (remaining_len r) n
    then fail (truncated n (remaining_len r)) r
    else done (take n (remaining r)) (record r { pos = r.pos + n })

-- `[0]` on the one byte read; the default stands for the panic that cannot happen.
unfoldable pub read_u8 : Read ℕ
read_u8 = do b ← read_bytes 1; pure (get_or b 0 0)

unfoldable pub read_bool : Read Bool
read_bool = do b ← read_u8; pure (not (b == 0))

unfoldable pub read_u32 : Read ℕ
read_u32 = do b ← read_bytes 4; pure (from_be b)

unfoldable pub read_u64 : Read ℕ
read_u64 = do b ← read_bytes 8; pure (from_be b)

-- `usize::MAX` on a 64-bit target.
abbrev pub usize_max : ℕ
usize_max = 2 ^ 64 - 1

-- The part of `read_string` behind the length; `start` is where the cursor goes back to.
string_body : ℕ → ℕ → Read Bytes
string_body start len r =
    if ltb usize_max len || ltb (remaining_len r) len
    then fail (length_overflow len (remaining_len r)) (record r { pos = start })
    else done (take len (remaining r)) (record r { pos = r.pos + len })

unfoldable pub read_string : Read Bytes
unfolding string_body
read_string r = and_then (read_u32 r) (string_body r.pos)

unfoldable pub read_mpint : Read Mpint
read_mpint = do b ← read_string; pure (record { bytes = b })

-- The part of `read_name_list` behind the string.
name_list_body : ℕ → Bytes → Read NameList
name_list_body start body r = elim (NameList.parse body) [
  | ok list ↦ done list r
  | err e ↦ fail (invalid_encoding e) (record r { pos = start })
]

unfoldable pub read_name_list : Read NameList
unfolding name_list_body
read_name_list r = and_then (read_string r) (name_list_body r.pos)

-- The error is the `count` of `TrailingBytes`.
unfoldable pub finish : Reader → Result ℕ (Unit {0})
unfolding is_empty
finish r = if is_empty r then ok tt else err (remaining_len r)
