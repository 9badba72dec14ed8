-- ===== src/Wire/Writer/NameLists.antt =====
-- crates/tatami_ssh_wire/src/primitives.rs: what `write_name_list` writes.
use tatami_ssh.Prelude.{
  ◌≤◌, ℕ, suc, ◌+◌, ◌≡◌, refl, sym, ap, ◌∙◌, arith, true, List, [], ◌∷◌, ◌++◌, Bytes, IsU32, ok,
  done, ◌>>◌, pure, ltb, lt→ltb, length, length-append, append-nil, All, if◌then◌else◌,
}
use tatami_ssh.Wire.Bytes.{to_be32}
use tatami_ssh.Wire.NameList.Join.{IsName, join}
use tatami_ssh.Wire.Writer.{
  Writer, names_len, write_names, write_name_body, write_name_list, write_u8, write_u32,
  write_bytes, ignore, written, capacity_remaining,
}
use tatami_ssh.Wire.Writer.Emits.{
  Appends, Emits, IsValid, Wrote, >>-Appends, ignore-Appends, reserve-Emits, u32_len-Emits,
  write_u8-Emits, write_u32-Emits, write_bytes-Emits,
}

-- The names behind the first, each with its comma.
joined_tail : List Bytes → Bytes
joined_tail [] = []
joined_tail (n ∷ ns) = (b',' ∷ n) ++ joined_tail ns

join-tail : (n : Bytes) (ns : List Bytes) → join (n ∷ ns) ≡ n ++ joined_tail ns
unfolding join joined_tail
join-tail n [] = sym (append-nil n)
join-tail n (m ∷ ns) = ap (λ t. n ++ (b',' ∷ t)) (join-tail m ns)

names_len-tail :
    (ns : List Bytes) (i acc : ℕ)
    → All IsName ns
    → names_len (suc i) acc ns ≡ ok (acc + length (joined_tail ns))
unfolding names_len joined_tail
names_len-tail [] i acc h = let e : acc ≡ acc + 0 = omega arith in ap ok e
names_len-tail (n ∷ ns) i acc h =
    let e : acc + 1 + length n + length (joined_tail ns)
        ≡ acc + suc (length (n ++ joined_tail ns)) =
      omega (arith, length-append n (joined_tail ns)) in
    let s : suc i + 1 ≡ suc (suc i) = omega arith in
    let t : ltb 0 (suc i) ≡ true = ground arith in
    rw (h.0, t, s) (names_len-tail ns (suc i) (acc + 1 + length n) h.1 ∙ ap ok e)

names_len-join : (ns : List Bytes) → All IsName ns → names_len 0 0 ns ≡ ok (length (join ns))
unfolding names_len
names_len-join [] h = unfold join in refl
names_len-join (n ∷ ns) h =
    let e : 0 + 0 + length n + length (joined_tail ns) ≡ length (join (n ∷ ns)) =
      omega (arith, length-append n (joined_tail ns), ap length (join-tail n ns)) in
    rw h.0 (names_len-tail ns 0 (0 + 0 + length n) h.1 ∙ ap ok e)

next_index : (i : ℕ) → suc i + 1 ≡ suc (suc i)
next_index i = omega arith

pure-Appends : Appends (pure tt) []
pure-Appends w v h = (
  w,
  refl,
  record {
    size = refl;
    moved = omega arith;
    fits = v.pos_le;
    appended = sym (append-nil (written w));
  },
)

pub pure-Emits : Emits (pure tt) []
pure-Emits = (pure-Appends, λ w v h. absurd (omega arith))

separator :
    (i : ℕ) → Appends (if ltb 0 (suc i) then ignore (write_u8 b',') else pure tt) (b',' ∷ [])
separator i =
    rw (lt→ltb 0 (suc i) (omega arith)) (ignore-Appends (write_u8 b',') _ (write_u8-Emits b',').0)

write_names-tail : (ns : List Bytes) (i : ℕ) → Appends (write_names (suc i) ns) (joined_tail ns)
unfolding write_names joined_tail
write_names-tail [] i = pure-Appends
write_names-tail (n ∷ ns) i =
    >>-Appends (if ltb 0 (suc i) then ignore (write_u8 b',') else pure tt)
      (ignore (write_bytes n) >> write_names (suc i + 1) ns) (b',' ∷ []) (n ++ joined_tail ns)
      (separator i)
      (>>-Appends (ignore (write_bytes n)) (write_names (suc i + 1) ns) n (joined_tail ns)
        (ignore-Appends (write_bytes n) n (write_bytes-Emits n).0)
        (rw (next_index i) (write_names-tail ns (suc i))))

write_names-join : (ns : List Bytes) → Appends (write_names 0 ns) (join ns)
unfolding write_names
write_names-join [] = unfold join in pure-Appends
write_names-join (n ∷ ns) = rw (join-tail n ns) (
    >>-Appends (pure tt) _ [] (n ++ joined_tail ns) pure-Appends (
      >>-Appends (ignore (write_bytes n)) _ n (joined_tail ns)
        (ignore-Appends (write_bytes n) n (write_bytes-Emits n).0) (write_names-tail ns 0)))

write_name_body-Emits :
    (ns : List Bytes)
    → IsU32 (length (join ns))
    → Emits (write_name_body ns (length (join ns))) (to_be32 (length (join ns)) ++ join ns)
unfolding write_name_body
write_name_body-Emits ns fits = u32_len-Emits (length (join ns)) _ _ fits (
    reserve-Emits (4 + length (join ns)) _ (to_be32 (length (join ns)) ++ join ns) (omega arith) (
      >>-Appends (ignore (write_u32 (length (join ns)))) (write_names 0 ns) _ (join ns)
        (ignore-Appends (write_u32 (length (join ns))) _ (write_u32-Emits (length (join ns))).0)
        (write_names-join ns)))

-- A list of valid names is written as the length of their comma-separated concatenation, and
-- that concatenation.
pub write_name_list-Emits :
    (ns : List Bytes)
    → All IsName ns
    → IsU32 (length (join ns))
    → Emits (write_name_list ns) (to_be32 (length (join ns)) ++ join ns)
unfolding write_name_list
write_name_list-Emits ns h fits = (
  λ w v le. rw (names_len-join ns h, write_name_list) (body.0 w v le),
  λ w v gt. rw (names_len-join ns h, write_name_list) (body.1 w v gt),
)
  where
    body : Emits (write_name_body ns (length (join ns))) (to_be32 (length (join ns)) ++ join ns)
    body = write_name_body-Emits ns fits

-- On a writer with room, `write_name_list` succeeds on well-formed names whose joined length fits
-- 32 bits: it appends exactly that length, big-endian, and the names joined with commas, and leaves
-- the size of the buffer and what was written before.
pub write_name_list-Wrote :
    (ns : List Bytes) (w : Writer)
    → All IsName ns
    → IsU32 (length (join ns))
    → IsValid w
    → length (to_be32 (length (join ns)) ++ join ns) ≤ capacity_remaining w
    → (w' : Writer) × (write_name_list ns w ≡ done tt w')
      × Wrote w (to_be32 (length (join ns)) ++ join ns) w'
write_name_list-Wrote ns w h fits v room = (write_name_list-Emits ns h fits).0 w v room
