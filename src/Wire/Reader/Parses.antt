-- ===== src/Wire/Reader/Parses.antt =====
-- What the methods of `Reader` accept: `Parses read bs a` says that `read` takes exactly `bs`, on
-- any input that starts with these bytes, and returns `a`.
use tatami_ssh.Prelude.{
  ℕ, ◌+◌, ◌≤◌, ◌<◌, ◌≡◌, sym, ap, ◌∙◌, arith, Bool, true, false, [], ◌∷◌, ◌++◌, Bytes, IsU32,
  Outcome, done, ltb, le→ltb, le→ltb, if◌then◌else◌, ◌^◌, length, drop, length-append, length-drop,
  take-append, drop-append, drop-drop, append_assoc, ok,
}
use tatami_ssh.Wire.Bytes.{to_be32, from_be-to_be32, to_be64, from_be-to_be64}
use tatami_ssh.Wire.NameList
use tatami_ssh.Wire.Reader.{
  name_list_body, read_name_list, Reader, remaining, remaining_len, read_bytes, read_u8, read_bool,
  read_u32, read_u64, read_string, string_body, usize_max,
}
use tatami_ssh.Wire.NameList.{NameList}

abbrev pub advance : Reader → ℕ → Reader
advance r n = record r { pos = r.pos + n }

pub remaining-advance :
    (r : Reader) (bs rest : Bytes)
    → remaining r ≡ bs ++ rest
    → remaining (advance r (length bs)) ≡ rest
remaining-advance r bs rest e =
    sym (drop-drop r.pos (length bs) r.input) ∙ ap (drop (length bs)) e ∙ drop-append bs rest

pub remaining_len-eq : (r : Reader) (bs : Bytes) → remaining r ≡ bs → remaining_len r ≡ length bs
remaining_len-eq r bs e = sym (length-drop r.pos r.input) ∙ ap length e

-- Wherever the reader stands, `read` takes exactly `bs` and returns `a`.
abbrev pub Parses {ℓ} :
    {E : Type ℓ} {A : Type 0} → (Reader → Outcome Reader E A) → Bytes → A → Type ℓ
Parses read bs a =
    (r : Reader) (rest : Bytes) → remaining r ≡ bs ++ rest → read r ≡ done a (advance r (length bs))

pub fits :
    (r : Reader) (bs rest : Bytes)
    → remaining r ≡ bs ++ rest
    → ltb (remaining_len r) (length bs) ≡ false
fits r bs rest e = le→ltb _ _ le
  where
    le : length bs ≤ remaining_len r
    le = omega (arith, remaining_len-eq r _ e, length-append bs rest)

pub read_bytes-Parses : (bs : Bytes) → Parses (read_bytes (length bs)) bs bs
unfolding read_bytes
read_bytes-Parses bs r rest e = rw (fits r bs rest e, e, take-append)

pub read_u8-Parses : (b : ℕ) → Parses read_u8 (b ∷ []) b
unfolding read_u8
read_u8-Parses b r rest e = rw (read_bytes-Parses (b ∷ []) r rest e)

-- `true` is written as 1 and `false` as 0.
pub read_bool-Parses : (b : Bool) → Parses read_bool ((if b then 1 else 0) ∷ []) b
unfolding read_bool
read_bool-Parses true r rest e = rw (read_u8-Parses 1 r rest e)
read_bool-Parses false r rest e = rw (read_u8-Parses 0 r rest e)

pub read_u64-Parses : (v : ℕ) → v < 2 ^ 64 → Parses read_u64 (to_be64 v) v
unfolding read_u64
read_u64-Parses v h r rest e = rw (read_bytes-Parses (to_be64 v) r rest e, from_be-to_be64 v h)

pub read_u32-Parses : (v : ℕ) → IsU32 v → Parses read_u32 (to_be32 v) v
unfolding read_u32
read_u32-Parses v h r rest e = rw (read_bytes-Parses (to_be32 v) r rest e, from_be-to_be32 v h)

string_body-Parses :
    (start : ℕ) (s : Bytes) → IsU32 (length s) → Parses (string_body start (length s)) s s
unfolding string_body
string_body-Parses start s h r rest e =
    rw (le→ltb usize_max (length s) (omega arith), fits r s rest e, e, take-append)

pub read_string-Parses :
    (s : Bytes) → IsU32 (length s) → Parses read_string (to_be32 (length s) ++ s) s
unfolding read_string
read_string-Parses s h r rest e =
    let e' = e ∙ append_assoc (to_be32 (length s)) s rest in
    let r4 = advance r 4 in
    let p : r4.pos + length s ≡ r.pos + length (to_be32 (length s) ++ s) = omega arith in
    rw (read_u32-Parses (length s) h r (s ++ rest) e') (
      string_body-Parses r.pos s h r4 rest (remaining-advance r (to_be32 (length s)) (s ++ rest) e')
      ∙ ap (λ k. done s (record r { pos = k })) p)

name_list_body-ok :
    (start : ℕ) (l : NameList) (r : Reader)
    → NameList.parse l.body ≡ ok l
    → name_list_body start l.body r ≡ done l r
unfolding name_list_body
name_list_body-ok start l r p = rw (p, name_list_body)

pub read_name_list-Parses :
    (l : NameList)
    → NameList.parse l.body ≡ ok l
    → IsU32 (length l.body)
    → Parses read_name_list (to_be32 (length l.body) ++ l.body) l
unfolding read_name_list
read_name_list-Parses l p h r rest e =
    rw (read_string-Parses l.body h r rest e)
      (name_list_body-ok r.pos l (advance r (length (to_be32 (length l.body) ++ l.body))) p)
