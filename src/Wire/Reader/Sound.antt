-- ===== src/Wire/Reader/Sound.antt =====
-- What a successful method of `Reader` has consumed, and what a failed one leaves behind.
use tatami_ssh.Prelude.{
  ℕ, ◌+◌, ◌≤◌, ◌≡◌, refl, sym, ap, ◌∙◌, arith, not, [], ◌∷◌, ◌++◌, Bytes, IsByte, IsU32, All, ok,
  Outcome, done, and_then-eq_done, ◌==◌, length, take, length-drop, length-take_le,
  take-append-drop, drop-drop, All-drop, All-take, All-append, length-append, append_assoc, get_or,
}
use tatami_ssh.Wire.Bytes.{to_be32, from_be, to_be32-from_be}
use tatami_ssh.Wire.NameList
use tatami_ssh.Wire.NameList.{NameList}
use tatami_ssh.Wire.Reader.{
  Reader, remaining, remaining_len, read_bytes, read_u8, read_bool, read_u32, read_string,
  string_body, read_name_list, name_list_body,
}
use tatami_ssh.Wire.Reader.Parses.{advance}

pub record IsValid (r : Reader) : Type 0 where
  pub pos_le : r.pos ≤ length r.input
  pub bytes : All IsByte r.input

-- The reader moved from `r` to `r'` over the bytes `cs`.
pub record Took (r r' : Reader) (cs : Bytes) : Type 0 where
  pub valid : IsValid r'
  pub input : r'.input ≡ r.input
  pub moved : r'.pos ≡ r.pos + length cs
  pub split : remaining r ≡ cs ++ remaining r'
  pub taken : All IsByte cs

abbrev pub Sound {ℓ} :
    {E : Type ℓ} {A : Type 0} → (Reader → Outcome Reader E A) → (A → Bytes → Type 0) → Type ℓ
Sound {E = E} {A = A} read P =
    (r : Reader)
    → IsValid r
    → (a : A) (r' : Reader) → read r ≡ done a r'
    → (cs : Bytes) × Took r r' cs × P a cs

length_taken : (r : Reader) (n : ℕ) → n ≤ remaining_len r → length (take n (remaining r)) ≡ n
length_taken r n h = length-take_le n (remaining r) (omega (arith, length-drop r.pos r.input))

take-Took :
    (r : Reader) (n : ℕ)
    → IsValid r
    → n ≤ remaining_len r
    → Took r (advance r n) (take n (remaining r))
take-Took r n v h = record {
  valid = record { pos_le = omega (arith, v.pos_le); bytes = v.bytes };
  input = refl;
  moved =
      ap (λ k. r.pos + k)
        (sym (length-take_le n (remaining r) (omega (arith, length-drop r.pos r.input))));
  split =
      sym (take-append-drop n (remaining r))
      ∙ ap (λ t. take n (remaining r) ++ t) (drop-drop r.pos n r.input);
  taken = All-take IsByte n _ (All-drop IsByte r.pos _ v.bytes);
}

read_bytes-inv :
    (n : ℕ) (r : Reader) (a : Bytes) (r' : Reader)
    → read_bytes n r ≡ done a r'
    → (n ≤ remaining_len r) × (a ≡ take n (remaining r)) × (r' ≡ advance r n)
unfolding read_bytes
read_bytes-inv n r a r' h = ground arith

pub read_bytes-Sound : (n : ℕ) → Sound (read_bytes n) (λ a cs. (a ≡ cs) × (length cs ≡ n))
read_bytes-Sound n r v a r' h =
    let (le, ea, er) = read_bytes-inv n r a r' h in
    rw er (take n (remaining r), take-Took r n v le, (ea, length_taken r n le))

pub Took-trans : (r u w : Reader) (cs ds : Bytes) → Took r u cs → Took u w ds → Took r w (cs ++ ds)
Took-trans r u w cs ds p q = record {
  valid = q.valid;
  input = q.input ∙ p.input;
  moved = omega (arith, p.moved, q.moved, length-append cs ds);
  split = p.split ∙ ap (λ t. cs ++ t) q.split ∙ sym (append_assoc cs ds (remaining w));
  taken = All-append IsByte cs ds p.taken q.taken;
}

pub read_u8-Sound : Sound read_u8 (λ b cs. (cs ≡ b ∷ []) × IsByte b)
unfolding read_u8
read_u8-Sound r v a r' h =
    let (b, u, e, e') = and_then-eq_done (read_bytes 1 r) _ h in
    let (cs, took, (eb, len)) = read_bytes-Sound 1 r v b u e in
    let er : r' ≡ u = cc in
    let ea : a ≡ get_or cs 0 0 = cc in
    let (one, byte) = single cs len took.taken in rw (er, ea) (cs, took, (one, byte))
  where
    single :
        (cs : Bytes)
        → length cs ≡ 1
        → All IsByte cs
        → (cs ≡ get_or cs 0 0 ∷ []) × IsByte (get_or cs 0 0)
    single [] e t = absurd (omega arith)
    single (c ∷ []) e t = (refl, t.0)
    single (c ∷ d ∷ cs) e t = absurd (omega arith)

pub read_bool-Sound : Sound read_bool (λ b cs. (x : ℕ) × (cs ≡ x ∷ []) × (b ≡ not (x == 0)))
unfolding read_bool
read_bool-Sound r v a r' h =
    let (b, u, e, e') = and_then-eq_done (read_u8 r) _ h in
    let (cs, took, (one, _)) = read_u8-Sound r v b u e in
    let er : r' ≡ u = cc in let ea : a ≡ not (b == 0) = cc in rw (er, ea) (cs, took, (b, one, refl))

pub read_u32-Sound : Sound read_u32 (λ n cs. (cs ≡ to_be32 n) × IsU32 n)
unfolding read_u32
read_u32-Sound r v a r' h =
    let (b, u, e, e') = and_then-eq_done (read_bytes 4 r) _ h in
    let (cs, took, (eb, len)) = read_bytes-Sound 4 r v b u e in
    let er : r' ≡ u = cc in
    let ea : a ≡ from_be cs = cc in
    let (w, i) = to_be32-from_be cs len took.taken in rw (er, ea) (cs, took, (sym w, i))

string_body-inv :
    (start n : ℕ) (r : Reader) (a : Bytes) (r' : Reader)
    → string_body start n r ≡ done a r'
    → (n ≤ remaining_len r) × (a ≡ take n (remaining r)) × (r' ≡ advance r n)
unfolding string_body
string_body-inv start n r a r' h = ground arith

pub read_string-Sound :
    Sound read_string (λ s cs. (cs ≡ to_be32 (length s) ++ s) × IsU32 (length s))
unfolding read_string
read_string-Sound r v a r' h =
    let (n, u, e, e') = and_then-eq_done (read_u32 r) _ h in
    let (cs, took, (ec, i)) = read_u32-Sound r v n u e in
    let (le, ea, er) = string_body-inv r.pos n u a r' e' in
    let el : length (take n (remaining u)) ≡ n = length_taken u n le in
    rw (er, ea, el)
      (
        cs ++ take n (remaining u),
        Took-trans r u _ cs _ took (take-Took u n took.valid le),
        (ap (λ t. t ++ take n (remaining u)) ec, i),
      )

name_list_body-inv :
    (start : ℕ) (body : Bytes) (r : Reader) (a : NameList) (r' : Reader)
    → name_list_body start body r ≡ done a r'
    → (NameList.parse body ≡ ok a) × (r' ≡ r)
unfolding name_list_body
name_list_body-inv start body r a r' h = ground arith

pub read_name_list-Sound : Sound read_name_list (λ l cs.
    (body : Bytes) × (cs ≡ to_be32 (length body) ++ body)
    × IsU32 (length body)
    × (NameList.parse body ≡ ok l))
unfolding read_name_list
read_name_list-Sound r v a r' h =
    let (body, u, e, e') = and_then-eq_done (read_string r) _ h in
    let (cs, took, (ec, i)) = read_string-Sound r v body u e in
    let (parsed, er) = name_list_body-inv r.pos body u a r' e' in
    rw er (cs, took, (body, ec, i, parsed))
