-- ===== src/Wire/Writer.antt =====
-- crates/tatami_ssh_wire/src/primitives.rs: `Writer`. The buffer keeps its length, and `written`
-- is its first `pos` bytes.
pub mod Emits
pub mod NameLists
pub mod Mpints
use Prim.Native.Nat.{bit_and}
use tatami_ssh.Prelude.{
  ℕ, suc, ◌+◌, ◌-◌, ◌^◌, Bool, true, false, not, List, [], ◌∷◌, ◌++◌, Bytes, Result, ok, err,
  Outcome, done, fail, ◌>>=◌, ◌>>◌, and_then, pure, ltb, ◌==◌, if◌then◌else◌, length, take, drop,
}
use tatami_ssh.Wire.Error.{EncodeError, insufficient_capacity, length_overflow, invalid_name}
use tatami_ssh.Wire.Bytes.{to_be32, to_be64}
use tatami_ssh.Wire.NameList.{is_valid_name}
use tatami_ssh.Wire.Mpint.{strip_leading_zeros}

pub record Writer : Type 0 where
  pub out : Bytes
  pub pos : ℕ

abbrev pub Write : Type 0
Write = Writer → Outcome Writer EncodeError (Unit {0})

abbrev pub new : Bytes → Writer
new out = record { out = out; pos = 0 }

-- `Writer::position`.
abbrev pub position : Writer → ℕ
position w = w.pos

abbrev pub capacity_remaining : Writer → ℕ
capacity_remaining w = length w.out - w.pos

abbrev pub written : Writer → Bytes
written w = take w.pos w.out

unfoldable pub reserve : ℕ → Write
reserve needed w =
    if ltb (capacity_remaining w) needed
    then fail (insufficient_capacity needed (capacity_remaining w)) w
    else done tt w

-- `copy_from_slice` into the buffer at `pos`.
abbrev pub copy_at : ℕ → Bytes → Bytes → Bytes
copy_at pos bytes out = take pos out ++ (bytes ++ drop (pos + length bytes) out)

unfoldable pub write_bytes : Bytes → Write
write_bytes bytes = do
  reserve (length bytes)
  λ w. done tt (record w { out = copy_at w.pos bytes w.out; pos = w.pos + length bytes })

unfoldable pub write_u8 : ℕ → Write
write_u8 v = write_bytes (v ∷ [])

unfoldable pub write_bool : Bool → Write
write_bool v = write_u8 (if v then 1 else 0)

unfoldable pub write_u32 : ℕ → Write
write_u32 v = write_bytes (to_be32 v)

unfoldable pub write_u64 : ℕ → Write
write_u64 v = write_bytes (to_be64 v)

-- `u32::try_from` on a length.
unfoldable pub u32_len : ℕ → Write
u32_len len w = if ltb len (2 ^ 32) then done tt w else fail (length_overflow len) w

-- `let _ = …`: the result is dropped, whatever it is.
unfoldable pub ignore : Write → Write
ignore m w = elim (m w) [ done _ w' ↦ done tt w' | fail _ w' ↦ done tt w' ]

unfoldable pub write_string : Bytes → Write
unfolding u32_len ignore
write_string bytes = do
  u32_len (length bytes)
  reserve (4 + length bytes)
  ignore (write_u32 (length bytes))
  ignore (write_bytes bytes)

-- The first byte has its high bit set.
unfoldable pub needs_pad : Bytes → Bool
needs_pad [] = false
needs_pad (b ∷ bs) = not (bit_and b 0x80 == 0)

unfoldable pub write_mpint_positive : Bytes → Write
unfolding u32_len ignore
write_mpint_positive magnitude =
    let m = strip_leading_zeros magnitude in
    let body_len = length m + (if needs_pad m then 1 else 0) in
    do
      u32_len body_len
      reserve (4 + body_len)
      ignore (write_u32 body_len)
      (if needs_pad m then ignore (write_u8 0) else pure tt)
      ignore (write_bytes m)

unfoldable pub mpint_positive_len : Bytes → ℕ
unfolding strip_leading_zeros
mpint_positive_len magnitude = elim (strip_leading_zeros magnitude) [
  | [] ↦ 4
  | b ∷ bs ↦ 4 + suc (length bs) + (if bit_and b 0x80 == 0 then 0 else 1)
]

-- The first loop of `write_name_list`: it validates the names and adds up `body_len`.
names_len : ℕ → ℕ → List Bytes → Result EncodeError ℕ
names_len index body_len [] = ok body_len
names_len index body_len (n ∷ ns) =
    let comma = if ltb 0 index then 1 else 0 in
    let rest = names_len (index + 1) (body_len + comma + length n) ns in
    if is_valid_name n then rest else err (invalid_name index)

-- The second loop.
pub write_names : ℕ → List Bytes → Write
write_names index [] = pure tt
write_names index (n ∷ ns) = do
  (if ltb 0 index then ignore (write_u8 b',') else pure tt)
  ignore (write_bytes n)
  write_names (index + 1) ns

-- The part of `write_name_list` behind the first loop.
write_name_body : List Bytes → ℕ → Write
unfolding u32_len ignore
write_name_body ns body_len = do
  u32_len body_len
  reserve (4 + body_len)
  ignore (write_u32 body_len)
  write_names 0 ns

unfoldable pub write_name_list : List Bytes → Write
unfolding names_len write_name_body write_names
write_name_list ns w = elim (names_len 0 0 ns) [
  | ok body_len ↦ write_name_body ns body_len w
  | err e ↦ fail e w
]
