-- ===== src/Wire/Bytes.antt =====
-- Big-endian words, as Rust's `from_be_bytes` and `to_be_bytes` read and write them.
use tatami_ssh.Prelude.{
  ℕ, ◌+◌, ◌*◌, ◌/◌, ◌%◌, ◌^◌, ◌<◌, ◌≡◌, arith, [], ◌∷◌, ◌++◌, Bytes, IsByte, IsU32, All, length,
}

-- The value of a byte string, most significant byte first.
unfoldable pub from_be_onto : ℕ → Bytes → ℕ
from_be_onto acc [] = acc
from_be_onto acc (b ∷ bs) = from_be_onto (acc * 256 + b) bs

abbrev pub from_be : Bytes → ℕ
from_be = from_be_onto 0

abbrev pub to_be32 : ℕ → Bytes
to_be32 v = v / 2 ^ 24 % 256 ∷ v / 2 ^ 16 % 256 ∷ v / 2 ^ 8 % 256 ∷ v % 256 ∷ []

-- An SSH `string`: its length, then its bytes.
abbrev pub wire_string : Bytes → Bytes
wire_string s = to_be32 (length s) ++ s

-- Every length that fits a `uint32` prefix.
abbrev pub IsString : Bytes → Type 0
IsString s = IsU32 (length s)

abbrev pub to_be64 : ℕ → Bytes
to_be64 v =
    v / 2 ^ 56 % 256
    ∷ v / 2 ^ 48 % 256
    ∷ v / 2 ^ 40 % 256
    ∷ v / 2 ^ 32 % 256
    ∷ v / 2 ^ 24 % 256
    ∷ v / 2 ^ 16 % 256
    ∷ v / 2 ^ 8 % 256
    ∷ v % 256
    ∷ []

pub from_be-to_be32 : (v : ℕ) → IsU32 v → from_be (to_be32 v) ≡ v
unfolding from_be_onto
from_be-to_be32 v h = omega arith

pub from_be-to_be64 : (v : ℕ) → v < 2 ^ 64 → from_be (to_be64 v) ≡ v
unfolding from_be_onto
from_be-to_be64 v h = omega arith

pub to_be32-from_be :
    (bs : Bytes) → length bs ≡ 4 → All IsByte bs → (to_be32 (from_be bs) ≡ bs) × IsU32 (from_be bs)
unfolding from_be_onto
to_be32-from_be (a ∷ b ∷ c ∷ d ∷ []) e h = (ground arith, omega arith)
to_be32-from_be [] e h = absurd (omega arith)
to_be32-from_be (a ∷ []) e h = absurd (omega arith)
to_be32-from_be (a ∷ b ∷ []) e h = absurd (omega arith)
to_be32-from_be (a ∷ b ∷ c ∷ []) e h = absurd (omega arith)
to_be32-from_be (a ∷ b ∷ c ∷ d ∷ x ∷ bs) e h = absurd (omega arith)

pub to_be32-All : (v : ℕ) → All IsByte (to_be32 v)
to_be32-All v = omega arith
