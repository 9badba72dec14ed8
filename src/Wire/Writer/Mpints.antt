-- ===== src/Wire/Writer/Mpints.antt =====
-- crates/tatami_ssh_wire/src/primitives.rs: what `write_mpint_positive` writes, and what `Mpint` makes of it.
use tatami_ssh.Prelude.{
  ℕ, ◌+◌, ◌≤◌, ◌≡◌, refl, sym, arith, true, false, some, [], ◌∷◌, ◌++◌, ◌⊎◌, inl, inr, Bytes, IsU32,
  done, pure, ◌==◌, if◌then◌else◌, length, length-append, Bool-cases, append-nil,
}
use tatami_ssh.Wire.Bytes.{to_be32}
use tatami_ssh.Wire.Mpint.{
  is_canonical, canonical_head, is_negative, strip_leading_zeros, positive_magnitude,
}
use tatami_ssh.Wire.Writer.{
  Writer, capacity_remaining, write_u8, write_u32, write_bytes, ignore, needs_pad,
  write_mpint_positive, mpint_positive_len,
}
use tatami_ssh.Wire.Writer.Emits.{
  IsValid, Wrote, Appends, Emits, u32_len-Emits, reserve-Emits, >>-Appends, ignore-Appends,
  write_u32-Emits, write_u8-Emits, write_bytes-Emits,
}

abbrev pub padding : Bytes → Bytes
padding m = if needs_pad m then 0 ∷ [] else []

-- The body of the mpint of a magnitude.
abbrev pub mpint_body : Bytes → Bytes
mpint_body magnitude = padding (strip_leading_zeros magnitude) ++ strip_leading_zeros magnitude

strip-cases :
    (m : Bytes)
    → (strip_leading_zeros m ≡ [])
      ⊎ ((b : ℕ) × (bs : Bytes) × ((b == 0) ≡ false) × (strip_leading_zeros m ≡ b ∷ bs))
unfolding strip_leading_zeros
strip-cases [] = inl refl
strip-cases (b ∷ bs) = elim (Bool-cases (b == 0)) [
  | inl e ↦ rw e (strip-cases bs)
  | inr e ↦ inr (b, bs, e, rw e refl)
]

-- A body whose magnitude has no leading zero.
abbrev GoodBody : Bytes → Type 0
GoodBody m =
    (is_canonical (record { bytes = padding m ++ m }) ≡ true)
    × (positive_magnitude (record { bytes = padding m ++ m }) ≡ some m)

good_cons : (b : ℕ) (bs : Bytes) → (b == 0) ≡ false → GoodBody (b ∷ bs)
unfolding needs_pad is_canonical canonical_head positive_magnitude is_negative strip_leading_zeros
good_cons b [] h = ground arith
good_cons b (next ∷ bs) h = ground arith

good_body : (magnitude : Bytes) → GoodBody (strip_leading_zeros magnitude)
good_body magnitude = elim (strip-cases magnitude) [
  | inl e ↦ rw e (
      unfold needs_pad is_canonical positive_magnitude is_negative strip_leading_zeros in
      (refl, refl))
  | inr (b, bs, h, e) ↦ rw e (good_cons b bs h)
]

nothing-Appends : Appends (pure tt) []
nothing-Appends w v h = (
  w,
  refl,
  record { size = refl; moved = omega arith; fits = v.pos_le; appended = sym (append-nil _) },
)

padding-Appends :
    (m : Bytes) → Appends (if needs_pad m then ignore (write_u8 0) else pure tt) (padding m)
padding-Appends m = elim (Bool-cases (needs_pad m)) [
  | inl e ↦ rw e (ignore-Appends (write_u8 0) (0 ∷ []) (write_u8-Emits 0).0)
  | inr e ↦ rw e nothing-Appends
]

length-padding : (m : Bytes) → length (padding m) ≡ (if needs_pad m then 1 else 0)
length-padding m = elim (Bool-cases (needs_pad m)) [ inl e ↦ rw e refl | inr e ↦ rw e refl ]

mpint_positive_len-body :
    (magnitude : Bytes) → mpint_positive_len magnitude ≡ 4 + length (mpint_body magnitude)
unfolding mpint_positive_len
mpint_positive_len-body magnitude = elim (strip-cases magnitude) [
  | inl e ↦ rw (e, mpint_positive_len) (unfold needs_pad in omega arith)
  | inr (b, bs, h, e) ↦ rw (e, mpint_positive_len) (unfold needs_pad in ground arith)
]

pub write_mpint_positive-Emits :
    (magnitude : Bytes)
    → IsU32 (length (mpint_body magnitude))
    → Emits
        (write_mpint_positive magnitude)
        (to_be32 (length (mpint_body magnitude)) ++ mpint_body magnitude)
unfolding write_mpint_positive
write_mpint_positive-Emits magnitude h =
    let m = strip_leading_zeros magnitude in
    let pad = length-padding m in
    let both = length-append (padding m) m in
    let len : length m + (if needs_pad m then 1 else 0) ≡ length (mpint_body magnitude) =
      omega arith in
    rw len (
      u32_len-Emits (length (mpint_body magnitude)) _ _ h (
        reserve-Emits (4 + length (mpint_body magnitude)) _
          (to_be32 (length (mpint_body magnitude)) ++ mpint_body magnitude) (omega arith)
          (>>-Appends (ignore (write_u32 (length (mpint_body magnitude)))) _ _
            (mpint_body magnitude)
            (ignore-Appends (write_u32 (length (mpint_body magnitude))) _
              (write_u32-Emits (length (mpint_body magnitude))).0)
            (>>-Appends _ (ignore (write_bytes m)) (padding m) m (padding-Appends m)
              (ignore-Appends (write_bytes m) m (write_bytes-Emits m).0)))))

-- On a writer with room, `write_mpint_positive` succeeds where the body fits a 32-bit length: it
-- appends the big-endian length and a body that is a canonical mpint, whose magnitude is the given
-- one without its leading zeros. `mpint_positive_len` is the number of bytes written.
pub write_mpint_positive-Wrote :
    (magnitude : Bytes) (w : Writer)
    → IsU32 (length (mpint_body magnitude))
    → IsValid w
    → 4 + length (mpint_body magnitude) ≤ capacity_remaining w
    → ((w' : Writer) × (write_mpint_positive magnitude w ≡ done tt w')
        × Wrote w (to_be32 (length (mpint_body magnitude)) ++ mpint_body magnitude) w')
      × (is_canonical (record { bytes = mpint_body magnitude }) ≡ true)
      × (positive_magnitude (record { bytes = mpint_body magnitude })
          ≡ some (strip_leading_zeros magnitude))
      × (mpint_positive_len magnitude ≡ 4 + length (mpint_body magnitude))
write_mpint_positive-Wrote magnitude w h v room =
    let (canonical, back) = good_body magnitude in
    (
      (write_mpint_positive-Emits magnitude h).0 w v (omega arith),
      canonical,
      back,
      mpint_positive_len-body magnitude,
    )
