-- ===== src/Wire/Writer/Emits.antt =====
-- What the methods of `Writer` write: `Emits m bs` says that `m` appends exactly `bs` if the buffer
-- has room for them, and fails if it has not.
use tatami_ssh.Prelude.{
  ℕ, ◌+◌, ◌^◌, ◌≤◌, ◌<◌, ◌≡◌, refl, sym, ap, ◌∙◌, arith, Bool, [], ◌∷◌, ◌++◌, Bytes, IsU32, done,
  fail, ◌>>◌, if◌then◌else◌, length, take, drop, length-append, length-drop, length-take_le,
  take-append, append_assoc, lt→ltb, le→ltb,
}
use native.Mathlib.Decide.{dec_le}
use tatami_ssh.Wire.Error.{EncodeError, insufficient_capacity}
use tatami_ssh.Wire.Bytes.{to_be32}
use tatami_ssh.Wire.Writer.{
  Writer, Write, capacity_remaining, written, reserve, copy_at, write_bytes, write_u8, write_bool,
  write_u32, u32_len, ignore, write_string,
}

pub record IsValid (w : Writer) : Type 0 where
  pub pos_le : w.pos ≤ length w.out

-- The writer went from `w` to `w'` by appending `bs`.
pub record Wrote (w : Writer) (bs : Bytes) (w' : Writer) : Type 0 where
  pub size : length w'.out ≡ length w.out
  pub moved : w'.pos ≡ w.pos + length bs
  pub fits : w'.pos ≤ length w'.out
  pub appended : written w' ≡ written w ++ bs

abbrev pub Appends : Write → Bytes → Type 0
Appends m bs =
    (w : Writer)
    → IsValid w
    → length bs ≤ capacity_remaining w
    → (w' : Writer) × (m w ≡ done tt w') × Wrote w bs w'

abbrev pub Refuses : Write → Bytes → Type 0
Refuses m bs =
    (w : Writer)
    → IsValid w
    → capacity_remaining w < length bs
    → (e : EncodeError) × (w' : Writer) × (m w ≡ fail e w')

abbrev pub Emits : Write → Bytes → Type 0
Emits m bs = Appends m bs × Refuses m bs

pub length-copy_at :
    (pos : ℕ) (bs out : Bytes)
    → pos + length bs ≤ length out
    → length (copy_at pos bs out) ≡ length out
length-copy_at pos bs out h = omega (
  arith,
  length-append (take pos out) (bs ++ drop (pos + length bs) out),
  length-append bs (drop (pos + length bs) out),
  length-take_le pos out (omega arith),
  length-drop (pos + length bs) out,
)

pub written-copy_at :
    (pos : ℕ) (bs out : Bytes)
    → pos + length bs ≤ length out
    → take (pos + length bs) (copy_at pos bs out) ≡ take pos out ++ bs
written-copy_at pos bs out h =
    let front = take pos out ++ bs in
    let n : pos + length bs ≡ length front =
      omega (arith, length-append (take pos out) bs, length-take_le pos out (omega arith)) in
    ap (λ k. take k (copy_at pos bs out)) n
    ∙ ap (take (length front)) (sym (append_assoc (take pos out) bs (drop (pos + length bs) out)))
    ∙ take-append front (drop (pos + length bs) out)

reserve_fits : (w : Writer) (n : ℕ) → n ≤ capacity_remaining w → reserve n w ≡ done tt w
unfolding reserve
reserve_fits w n h = rw (le→ltb (capacity_remaining w) n h)

reserve_full :
    (w : Writer) (n : ℕ)
    → capacity_remaining w < n
    → reserve n w ≡ fail (insufficient_capacity n (capacity_remaining w)) w
unfolding reserve
reserve_full w n h = rw (lt→ltb (capacity_remaining w) n h)

-- A reservation for all that follows decides at once.
pub reserve-Emits :
    (n : ℕ) (m : Write) (bs : Bytes) → n ≡ length bs → Appends m bs → Emits (reserve n >> m) bs
reserve-Emits n m bs e p = (
  λ w v h. let (w', k, wr) = p w v h in (w', rw (reserve_fits w n (omega arith)) k, wr),
  λ w v h. (insufficient_capacity n (capacity_remaining w), w, rw (reserve_full w n (omega arith))),
)

abbrev appended : Writer → Bytes → Writer
appended w bs = record w { out = copy_at w.pos bs w.out; pos = w.pos + length bs }

appended-Wrote :
    (w : Writer) (bs : Bytes)
    → IsValid w
    → length bs ≤ capacity_remaining w
    → Wrote w bs (appended w bs)
appended-Wrote w bs v h =
    let fits : w.pos + length bs ≤ length w.out = omega (arith, v.pos_le) in
    record {
      size = length-copy_at w.pos bs w.out fits;
      moved = refl;
      fits = omega (arith, length-copy_at w.pos bs w.out fits);
      appended = written-copy_at w.pos bs w.out fits;
    }

pub write_bytes-Emits : (bs : Bytes) → Emits (write_bytes bs) bs
unfolding write_bytes
write_bytes-Emits bs =
    reserve-Emits (length bs) (λ w. done tt (appended w bs)) bs refl
      (λ w v h. (appended w bs, refl, appended-Wrote w bs v h))

Wrote-trans : (w u x : Writer) (bs cs : Bytes) → Wrote w bs u → Wrote u cs x → Wrote w (bs ++ cs) x
Wrote-trans w u x bs cs p q = record {
  size = q.size ∙ p.size;
  moved = omega (arith, p.moved, q.moved, length-append bs cs);
  fits = q.fits;
  appended = q.appended ∙ ap (λ t. t ++ cs) p.appended ∙ append_assoc (written w) bs cs;
}

pub >>-Appends :
    (m k : Write) (bs cs : Bytes) → Appends m bs → Appends k cs → Appends (m >> k) (bs ++ cs)
>>-Appends m k bs cs p q w v h =
    let (u, e, wr) = p w v (omega (arith, length-append bs cs)) in
    let (x, e', wr') =
      q u (record { pos_le = wr.fits })
        (omega (arith, length-append bs cs, wr.size, wr.moved, wr.fits)) in
    (x, rw e e', Wrote-trans w u x bs cs wr wr')

-- One method after another writes the one's bytes before the other's.
pub >>-Emits : (m k : Write) (bs cs : Bytes) → Emits m bs → Emits k cs → Emits (m >> k) (bs ++ cs)
>>-Emits m k bs cs p q = (>>-Appends m k bs cs p.0 q.0, refuse)
  where
    refuse : Refuses (m >> k) (bs ++ cs)
    refuse w v h = elim (dec_le (length bs) (capacity_remaining w)) [
      | yes le ↦
          let (u, e, wr) = p.0 w v le in
          let (x, t, e') =
            q.1 u (record { pos_le = wr.fits })
              (omega (arith, length-append bs cs, wr.size, wr.moved, wr.fits)) in
          (x, t, rw e e')
      | no gt ↦ let (x, t, e) = p.1 w v (omega arith) in (x, t, rw e)
    ]

pub ignore-Appends : (m : Write) (bs : Bytes) → Appends m bs → Appends (ignore m) bs
unfolding ignore
ignore-Appends m bs p w v h = let (u, e, wr) = p w v h in (u, rw (e, ignore), wr)

pub u32_len-Emits :
    (n : ℕ) (m : Write) (bs : Bytes) → IsU32 n → Emits m bs → Emits (u32_len n >> m) bs
unfolding u32_len
u32_len-Emits n m bs h p = (
  λ w v le. rw (lt→ltb n (2 ^ 32) h) (p.0 w v le),
  λ w v gt. rw (lt→ltb n (2 ^ 32) h) (p.1 w v gt),
)

pub write_u8-Emits : (b : ℕ) → Emits (write_u8 b) (b ∷ [])
unfolding write_u8
write_u8-Emits b = write_bytes-Emits (b ∷ [])

pub write_bool-Emits : (b : Bool) → Emits (write_bool b) ((if b then 1 else 0) ∷ [])
unfolding write_bool
write_bool-Emits b = write_u8-Emits (if b then 1 else 0)

pub write_u32-Emits : (v : ℕ) → Emits (write_u32 v) (to_be32 v)
unfolding write_u32
write_u32-Emits v = write_bytes-Emits (to_be32 v)

pub write_string-Emits :
    (s : Bytes) → IsU32 (length s) → Emits (write_string s) (to_be32 (length s) ++ s)
unfolding write_string
write_string-Emits s h = u32_len-Emits (length s) _ _ h (
    reserve-Emits (4 + length s) _ (to_be32 (length s) ++ s) (omega arith) (
      >>-Appends (ignore (write_u32 (length s))) (ignore (write_bytes s)) _ s
        (ignore-Appends (write_u32 (length s)) _ (write_u32-Emits (length s)).0)
        (ignore-Appends (write_bytes s) s (write_bytes-Emits s).0)))
