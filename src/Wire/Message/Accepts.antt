-- ===== src/Wire/Message/Accepts.antt =====
-- Decoding what a message's fields were written as. `Accepts parser bs a`: where the rest of the
-- payload is exactly `bs`, `parser` returns `a`.
use Prim.Native.String.{String}
use mathlib.Core.Path.{subst}
use tatami_ssh.Wire.Error.{MessageError}
use tatami_ssh.Prelude.{
  ap, ◌∙◌, append_assoc, ℕ, ◌+◌, ◌≡◌, refl, arith, [], ◌∷◌, ◌++◌, Bytes, ok, done, ==_self, result,
  length, length-append, append-nil, pure, ◌>>◌, ◌>>=◌, Bool, if◌then◌else◌, IsU32,
}
use tatami_ssh.Wire.Reader
use tatami_ssh.Wire.Bytes.{to_be32, wire_string, IsString}
use tatami_ssh.Wire.Reader.{
  Reader, Read, remaining, remaining_len, is_empty, read_u8, read_u32, read_string, read_bool,
  read_bytes, read_name_list,
}
use tatami_ssh.Wire.Reader.Parses.{
  Parses, advance, remaining-advance, read_u8-Parses, read_u32-Parses, read_string-Parses,
  read_bool-Parses, read_bytes-Parses, read_name_list-Parses,
}
use tatami_ssh.Wire.NameList
use tatami_ssh.Wire.NameList.{NameList}
use tatami_ssh.Wire.Message.{Parser, expect_message, field, finish, decode}

abbrev pub Accepts : {A : Type 0} → Parser A → Bytes → A → Type 0
Accepts parser bs a =
    (r : Reader)
    → (remaining r ≡ bs) × (r.pos + length bs ≡ length r.input)
    → result (parser r) ≡ ok a

pub field-Parses :
    {A : Type 0} (name : String) (read : Read A) (bs : Bytes) (a : A)
    → Parses read bs a
    → Parses (field name read) bs a
unfolding field
field-Parses name read bs a p r rest e = rw (p r rest e, field)

pub expect_message-Parses : (n : ℕ) → Parses (expect_message n) (n ∷ []) tt
unfolding expect_message
expect_message-Parses n r rest e = rw (read_u8-Parses n r rest e, expect_message) (rw (==_self n))

pub >>=-Accepts :
    {A B : Type 0} (m : Parser A) (f : A → Parser B) (bs cs : Bytes) (a : A) (b : B)
    → Parses m bs a
    → Accepts (f a) cs b
    → Accepts (m >>= f) (bs ++ cs) b
>>=-Accepts m f bs cs a b p q r (e, n) =
    rw (p r cs e)
      (q (advance r (length bs)) (remaining-advance r bs cs e, omega (arith, length-append bs cs)))

pub >>=-Parses :
    {A B : Type 0} (m : Parser A) (f : A → Parser B) (bs cs : Bytes) (a : A) (b : B)
    → Parses m bs a
    → Parses (f a) cs b
    → Parses (m >>= f) (bs ++ cs) b
>>=-Parses m f bs cs a b p q r rest e =
    let e' = e ∙ append_assoc bs cs rest in
    let u = advance r (length bs) in
    let at : u.pos + length cs ≡ r.pos + length (bs ++ cs) = omega (arith, length-append bs cs) in
    rw (p r (cs ++ rest) e') (
      q u rest (remaining-advance r bs (cs ++ rest) e')
      ∙ ap (λ k. done b (record r { pos = k })) at)

pub pure-Parses : {A : Type 0} (a : A) → Parses {E = MessageError} (pure a) [] a
pure-Parses a r rest e =
    let at : r.pos ≡ r.pos + 0 = omega arith in ap (λ k. done a (record r { pos = k })) at

pub finish-Accepts : {A : Type 0} (a : A) → Accepts (finish >> pure a) [] a
unfolding finish Reader.finish is_empty
finish-Accepts a r (e, n) = rw (at_end r (omega arith), finish)
  where
    at_end : (r : Reader) → r.pos ≡ length r.input → Reader.finish r ≡ ok tt
    at_end r h = rw (h, is_empty) (rw (==_self (length r.input)))

-- A tail that takes whatever is left.
pub rest-Accepts :
    {A : Type 0} (f : Bytes → A) (cs : Bytes) → Accepts (λ r. done (f (remaining r)) r) cs (f cs)
rest-Accepts f cs r (e, n) = rw e

pub decode-Accepts :
    {A : Type 0} (parser : Parser A) (bs : Bytes) (a : A)
    → Accepts parser bs a
    → decode parser bs ≡ ok a
unfolding decode
decode-Accepts parser bs a p = p (Reader.new bs) (refl, omega arith)

-- At the last field nothing follows.
pub last-Accepts :
    {A : Type 0} (parser : Parser A) (bs : Bytes) (a : A)
    → Accepts parser (bs ++ []) a
    → Accepts parser bs a
last-Accepts parser bs a p = subst (λ x. Accepts parser x a) (append-nil bs) p

-- One rule for each kind of field. The first arguments are the field's value and its bound.
pub message-Accepts :
    {A : Type 0} (n : ℕ) (f : Unit {0} → Parser A) (cs : Bytes) (a : A)
    → Accepts (f tt) cs a
    → Accepts (expect_message n >>= f) (n ∷ cs) a
message-Accepts n f cs a p =
    >>=-Accepts (expect_message n) f (n ∷ []) cs tt a (expect_message-Parses n) p

pub u32-Accepts :
    {A : Type 0} (v : ℕ)
    → IsU32 v
    → (name : String) (f : ℕ → Parser A) (cs : Bytes) (a : A) → Accepts (f v) cs a
    → Accepts (field name read_u32 >>= f) (to_be32 v ++ cs) a
u32-Accepts v h name f cs a p =
    >>=-Accepts (field name read_u32) f (to_be32 v) cs v a
      (field-Parses name read_u32 (to_be32 v) v (read_u32-Parses v h)) p

pub string-Accepts :
    {A : Type 0} (s : Bytes)
    → IsString s
    → (name : String) (f : Bytes → Parser A) (cs : Bytes) (a : A) → Accepts (f s) cs a
    → Accepts (field name read_string >>= f) (wire_string s ++ cs) a
string-Accepts s h name f cs a p =
    >>=-Accepts (field name read_string) f (wire_string s) cs s a
      (field-Parses name read_string (wire_string s) s (read_string-Parses s h)) p

pub bool-Accepts :
    {A : Type 0} (b : Bool) (name : String) (f : Bool → Parser A) (cs : Bytes) (a : A)
    → Accepts (f b) cs a
    → Accepts (field name read_bool >>= f) ((if b then 1 else 0) ∷ cs) a
bool-Accepts b name f cs a p =
    >>=-Accepts (field name read_bool) f ((if b then 1 else 0) ∷ []) cs b a
      (field-Parses name read_bool ((if b then 1 else 0) ∷ []) b (read_bool-Parses b)) p

pub bytes-Accepts :
    {A : Type 0} (bs : Bytes) (n : ℕ)
    → length bs ≡ n
    → (name : String) (f : Bytes → Parser A) (cs : Bytes) (a : A) → Accepts (f bs) cs a
    → Accepts (field name (read_bytes n) >>= f) (bs ++ cs) a
bytes-Accepts bs n h name f cs a p = rw (← h) (
    >>=-Accepts (field name (read_bytes (length bs))) f bs cs bs a
      (field-Parses name (read_bytes (length bs)) bs bs (read_bytes-Parses bs)) p)

pub name_list-Accepts :
    {A : Type 0} (l : NameList)
    → (NameList.parse l.body ≡ ok l) × IsString l.body
    → (name : String) (f : NameList → Parser A) (cs : Bytes) (a : A) → Accepts (f l) cs a
    → Accepts (field name read_name_list >>= f) (wire_string l.body ++ cs) a
name_list-Accepts l h name f cs a p =
    >>=-Accepts (field name read_name_list) f (wire_string l.body) cs l a
      (field-Parses name read_name_list (wire_string l.body) l (read_name_list-Parses l h.0 h.1)) p
