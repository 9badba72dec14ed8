-- ===== src/Wire/Reader/Cursor.antt =====
-- crates/tatami_ssh_wire/src/primitives.rs: what a failing method of `Reader` does to the cursor.
use tatami_ssh.Prelude.{
  ℕ, ◌≡◌, ◌∙◌, arith, inl, inr, Bytes, done, fail, and_then, and_then-eq_done, and_then-eq_fail,
  Unchanged, Unchanged-of,
}
use tatami_ssh.Wire.Error.{DecodeError}
use tatami_ssh.Wire.Reader.{
  Reader, Read, read_bytes, read_u8, read_bool, read_u32, read_u64, read_string, string_body,
  read_mpint, read_name_list, name_list_body,
}

abbrev pub IsAtomic : {A : Type 0} → Read A → Type 0
IsAtomic read = (r : Reader) (e : DecodeError) (r' : Reader) → read r ≡ fail e r' → r' ≡ r

read_bytes-IsAtomic : (n : ℕ) → IsAtomic (read_bytes n)
unfolding read_bytes
read_bytes-IsAtomic n r e r' h = ground arith

-- A method whose later part cannot fail is atomic if its first part is.
map-IsAtomic :
    {A B : Type 0} (m : Read A) (f : A → B)
    → IsAtomic m
    → IsAtomic (λ r. and_then (m r) (λ a s. done (f a) s))
map-IsAtomic m f k r e r' h = elim (and_then-eq_fail (m r) _ h) [
  | inl first ↦ k r e r' first
  | inr (a, u, _, later) ↦ absurd (cc later)
]

read_u8-IsAtomic : IsAtomic read_u8
unfolding read_u8
read_u8-IsAtomic = map-IsAtomic (read_bytes 1) _ (read_bytes-IsAtomic 1)

read_u32-IsAtomic : IsAtomic read_u32
unfolding read_u32
read_u32-IsAtomic = map-IsAtomic (read_bytes 4) _ (read_bytes-IsAtomic 4)

read_u32-keeps : (r : Reader) (n : ℕ) (u : Reader) → read_u32 r ≡ done n u → u.input ≡ r.input
unfolding read_u32 read_bytes
read_u32-keeps r n u h = ground arith

string_body_fail :
    (start n : ℕ) (r : Reader) (e : DecodeError) (r' : Reader)
    → string_body start n r ≡ fail e r'
    → r' ≡ record r { pos = start }
unfolding string_body
string_body_fail start n r e r' h = ground arith

string_body_keeps :
    (start n : ℕ) (r : Reader) (a : Bytes) (r' : Reader)
    → string_body start n r ≡ done a r'
    → r'.input ≡ r.input
unfolding string_body
string_body_keeps start n r a r' h = ground arith

back : (r u : Reader) → u.input ≡ r.input → record u { pos = r.pos } ≡ r
back r u e = λ i. record { input = e i; pos = r.pos }

read_string-IsAtomic : IsAtomic read_string
unfolding read_string
read_string-IsAtomic r e r' h = elim (and_then-eq_fail (read_u32 r) _ h) [
  | inl first ↦ read_u32-IsAtomic r e r' first
  | inr (n, u, len, later) ↦
      string_body_fail r.pos n u e r' later ∙ back r u (read_u32-keeps r n u len)
]

read_string-keeps :
    (r : Reader) (s : Bytes) (u : Reader) → read_string r ≡ done s u → u.input ≡ r.input
unfolding read_string
read_string-keeps r s u h =
    let (n, w, e, e') = and_then-eq_done (read_u32 r) _ h in
    string_body_keeps r.pos n w s u e' ∙ read_u32-keeps r n w e

name_list_body_fail :
    (start : ℕ) (body : Bytes) (r : Reader) (e : DecodeError) (r' : Reader)
    → name_list_body start body r ≡ fail e r'
    → r' ≡ record r { pos = start }
unfolding name_list_body
name_list_body_fail start body r e r' h = ground arith

read_name_list-IsAtomic : IsAtomic read_name_list
unfolding read_name_list
read_name_list-IsAtomic r e r' h = elim (and_then-eq_fail (read_string r) _ h) [
  | inl first ↦ read_string-IsAtomic r e r' first
  | inr (s, u, body, later) ↦
      name_list_body_fail r.pos s u e r' later ∙ back r u (read_string-keeps r s u body)
]

-- Whichever method of `Reader` fails, and wherever, the reader is left exactly as it was before the
-- call: raw bytes, bytes, booleans, 32- and 64-bit words, strings, mpints and name lists.
pub read-Unchanged :
    (r : Reader) (n : ℕ)
    → Unchanged r (read_bytes n r)
      × Unchanged r (read_u8 r)
      × Unchanged r (read_bool r)
      × Unchanged r (read_u32 r)
      × Unchanged r (read_u64 r)
      × Unchanged r (read_string r)
      × Unchanged r (read_mpint r)
      × Unchanged r (read_name_list r)
unfolding read_bool read_u64 read_mpint
read-Unchanged r n = (
  Unchanged-of r _ (read_bytes-IsAtomic n r),
  Unchanged-of r _ (read_u8-IsAtomic r),
  Unchanged-of r _ (map-IsAtomic read_u8 _ read_u8-IsAtomic r),
  Unchanged-of r _ (read_u32-IsAtomic r),
  Unchanged-of r _ (map-IsAtomic (read_bytes 8) _ (read_bytes-IsAtomic 8) r),
  Unchanged-of r _ (read_string-IsAtomic r),
  Unchanged-of r _ (map-IsAtomic read_string _ read_string-IsAtomic r),
  Unchanged-of r _ (read_name_list-IsAtomic r),
)
