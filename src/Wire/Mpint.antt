-- ===== src/Wire/Mpint.antt =====
-- crates/tatami_ssh_wire/src/primitives.rs: `Mpint`, a borrowed two's-complement integer.
use Prim.Native.Nat.{bit_and}
use tatami_ssh.Prelude.{
  ℕ, Bool, true, false, not, Option, none, some, [], ◌∷◌, Bytes, ◌==◌, if◌then◌else◌,
}

pub record Mpint : Type 0 where
  pub bytes : Bytes

unfoldable pub is_zero : Mpint → Bool
is_zero m = elim m.bytes [ [] ↦ true | b ∷ bs ↦ false ]

unfoldable pub is_negative : Mpint → Bool
is_negative m = elim m.bytes [ [] ↦ false | b ∷ bs ↦ not (bit_and b 0x80 == 0) ]

-- The arms of the `match` on a first byte and what follows it.
unfoldable pub canonical_head : ℕ → Bytes → Bool
canonical_head b [] = not (b == 0)
canonical_head b (next ∷ rest) =
    if b == 0
    then not (bit_and next 0x80 == 0)
    else if b == 0xff
    then bit_and next 0x80 == 0
    else true

unfoldable pub is_canonical : Mpint → Bool
unfolding canonical_head
is_canonical m = elim m.bytes [ [] ↦ true | b ∷ bs ↦ canonical_head b bs ]

-- The bytes from the first nonzero one on.
unfoldable pub strip_leading_zeros : Bytes → Bytes
strip_leading_zeros [] = []
strip_leading_zeros (b ∷ bs) = let rest = strip_leading_zeros bs in if b == 0 then rest else b ∷ bs

unfoldable pub positive_magnitude : Mpint → Option Bytes
unfolding strip_leading_zeros is_negative
positive_magnitude m = if is_negative m then none else some (strip_leading_zeros m.bytes)
