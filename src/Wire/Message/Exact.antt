-- ===== src/Wire/Message/Exact.antt =====
-- What a decoder accepts. `Exact parser W`: whatever `parser` returns on a payload is in the
-- relation `W` to the bytes that it was read from.
use Prim.Native.String.{String}
use tatami_ssh.Prelude.{
  sym, subst, ℕ, ◌≡◌, refl, ap, ◌∙◌, arith, [], ◌∷◌, ◌++◌, Bytes, IsByte, All, ok, Outcome, done,
  fail, and_then, result, length, pure, ◌>>◌, ◌>>=◌, ◌==◌, drop, drop_all, Bool, not, IsU32, subst,
  sym,
}
use tatami_ssh.Wire.Reader
use tatami_ssh.Wire.Bytes.{to_be32, wire_string, IsString}
use tatami_ssh.Wire.Error.{MessageError}
use tatami_ssh.Wire.Reader.{
  Reader, Read, remaining, is_empty, read_u8, read_u32, read_string, read_bool, read_bytes,
  read_name_list,
}
use tatami_ssh.Wire.Reader.Sound.{
  IsValid, Sound, read_u8-Sound, read_u32-Sound, read_string-Sound, read_bool-Sound,
  read_bytes-Sound, read_name_list-Sound,
}
use tatami_ssh.Wire.NameList
use tatami_ssh.Wire.NameList.{NameList}
use tatami_ssh.Wire.NameList.Pieces.{parse_sound}
use tatami_ssh.Wire.Message.{Parser, expect_message, field, finish, decode}

pub record Exact {A : Type 0} (parser : Parser A) (W : A → Bytes → Type 0) : Type 0 where
  pub reads : (r : Reader) → IsValid r → (a : A) → result (parser r) ≡ ok a → W a (remaining r)

field-inv :
    {A : Type 0} (name : String) (read : Read A) (r : Reader) (a : A) (r' : Reader)
    → field name read r ≡ done a r'
    → read r ≡ done a r'
unfolding field
field-inv name read r a r' h = ground arith

pub field-Sound :
    {A : Type 0} (name : String) (read : Read A) (P : A → Bytes → Type 0)
    → Sound read P
    → Sound (field name read) P
field-Sound name read P p r v a r' h = p r v a r' (field-inv name read r a r' h)

expect_message-inv :
    (n : ℕ) (r r' : Reader) → expect_message n r ≡ done tt r' → read_u8 r ≡ done n r'
unfolding expect_message
expect_message-inv n r r' h = ground arith

pub expect_message-Sound : (n : ℕ) → Sound (expect_message n) (λ _ cs. cs ≡ n ∷ [])
expect_message-Sound n r v a r' h =
    let (cs, took, p) = read_u8-Sound r v n r' (expect_message-inv n r r' h) in (cs, took, p.0)

result-ok :
    {A : Type 0} (o : Outcome Reader MessageError A) (a : A)
    → result o ≡ ok a
    → (r : Reader) × (o ≡ done a r)
result-ok (done x r) a h = (r, ground arith)
result-ok (fail e r) a h = cc

and_then-inv :
    {A B : Type 0} (o : Outcome Reader MessageError A) (f : A → Parser B) (b : B)
    → result (and_then o f) ≡ ok b
    → (a : A) × (u : Reader) × (o ≡ done a u) × (result (f a u) ≡ ok b)
and_then-inv (done a u) f b h = (a, u, refl, h)
and_then-inv (fail e u) f b h = cc

pub >>=-Exact :
    {A B : Type 0} (m : Parser A) (f : A → Parser B) (P : A → Bytes → Type 0)
    (W : B → Bytes → Type 0)
    → Sound m P
    → ((a : A) (cs : Bytes) → All IsByte cs → P a cs → Exact (f a) (λ b ds. W b (cs ++ ds)))
    → Exact (m >>= f) W
>>=-Exact m f P W p q = record {
  reads = λ r v b h.
      let (a, u, e, later) = and_then-inv (m r) f b h in
      let (cs, took, k) = p r v a u e in
      rw took.split ((q a cs took.taken k).reads u took.valid b later);
}

at_pos : (r u : Reader) → finish r ≡ done tt u → r.pos ≡ length r.input
unfolding finish Reader.finish is_empty
at_pos r u h = ground arith

at_end : (r u : Reader) → finish r ≡ done tt u → remaining r ≡ []
at_end r u h = ap (λ n. drop n r.input) (at_pos r u h) ∙ drop_all r.input

pub finish-Exact :
    {A : Type 0} (a : A) (W : A → Bytes → Type 0) → W a [] → Exact (finish >> pure a) W
finish-Exact a W w = record {
  reads = λ r v b h.
      let (_, u, e, later) = and_then-inv (finish r) (λ _. pure a) b h in
      let same : a ≡ b = ground arith in rw (at_end r u e, ← same) w;
}

-- A tail that takes whatever is left.
pub rest-Exact :
    {A : Type 0} (f : Bytes → A) (W : A → Bytes → Type 0)
    → ((cs : Bytes) → W (f cs) cs)
    → Exact (λ r. done (f (remaining r)) r) W
rest-Exact f W w = record {
  reads = λ r v b h. let same : f (remaining r) ≡ b = ground arith in rw (← same) (w (remaining r));
}

pub decode-Exact :
    {A : Type 0} (parser : Parser A) (W : A → Bytes → Type 0) (payload : Bytes) (a : A)
    → All IsByte payload
    → Exact parser W
    → decode parser payload ≡ ok a
    → W a payload
unfolding decode
decode-Exact parser W payload a bytes p h =
    p.reads (Reader.new payload) (record { pos_le = omega arith; bytes = bytes }) a h

-- One rule for each kind of field.
pub message-Exact :
    {A : Type 0} (n : ℕ) (f : Unit {0} → Parser A) (W : A → Bytes → Type 0)
    → Exact (f tt) (λ a ds. W a (n ∷ ds))
    → Exact (expect_message n >>= f) W
message-Exact n f W p =
    >>=-Exact (expect_message n) f (λ _ cs. cs ≡ n ∷ []) W (expect_message-Sound n)
      (λ _ cs _ e. rw e p)

pub u32-Exact :
    {A : Type 0} (name : String) (f : ℕ → Parser A) (W : A → Bytes → Type 0)
    → ((v : ℕ) → IsU32 v → Exact (f v) (λ a ds. W a (to_be32 v ++ ds)))
    → Exact (field name read_u32 >>= f) W
u32-Exact name f W p =
    >>=-Exact (field name read_u32) f (λ v cs. (cs ≡ to_be32 v) × IsU32 v) W
      (field-Sound name read_u32 _ read_u32-Sound) (λ v cs _ k. rw k.0 (p v k.1))

pub string-Exact :
    {A : Type 0} (name : String) (f : Bytes → Parser A) (W : A → Bytes → Type 0)
    → ((s : Bytes) → IsString s → Exact (f s) (λ a ds. W a (wire_string s ++ ds)))
    → Exact (field name read_string >>= f) W
string-Exact name f W p =
    >>=-Exact (field name read_string) f (λ s cs. (cs ≡ wire_string s) × IsString s) W
      (field-Sound name read_string _ read_string-Sound) (λ s cs _ k. rw k.0 (p s k.1))

pub bool-Exact :
    {A : Type 0} (name : String) (f : Bool → Parser A) (W : A → Bytes → Type 0)
    → ((b : Bool) (x : ℕ) → b ≡ not (x == 0) → Exact (f b) (λ a ds. W a (x ∷ ds)))
    → Exact (field name read_bool >>= f) W
bool-Exact name f W p =
    >>=-Exact (field name read_bool) f (λ b cs. (x : ℕ) × (cs ≡ x ∷ []) × (b ≡ not (x == 0))) W
      (field-Sound name read_bool _ read_bool-Sound) (λ b cs _ k. rw k.1 (p b k.0 k.2))

pub bytes-Exact :
    {A : Type 0} (name : String) (n : ℕ) (f : Bytes → Parser A) (W : A → Bytes → Type 0)
    → ((bs : Bytes) → length bs ≡ n → Exact (f bs) (λ a ds. W a (bs ++ ds)))
    → Exact (field name (read_bytes n) >>= f) W
bytes-Exact name n f W p =
    >>=-Exact (field name (read_bytes n)) f (λ bs cs. (bs ≡ cs) × (length cs ≡ n)) W
      (field-Sound name (read_bytes n) _ (read_bytes-Sound n))
      (λ bs cs _ k. rw (← k.0) (p bs (rw k.0 k.1)))

pub name_list-Exact :
    {A : Type 0} (name : String) (f : NameList → Parser A) (W : A → Bytes → Type 0)
    → ((l : NameList)
        → (NameList.parse l.body ≡ ok l) × IsString l.body
        → Exact (f l) (λ a ds. W a (wire_string l.body ++ ds)))
    → Exact (field name read_name_list >>= f) W
name_list-Exact name f W p =
    >>=-Exact (field name read_name_list) f
      (λ l cs.
        (body : Bytes) × (cs ≡ wire_string body) × IsString body × (NameList.parse body ≡ ok l))
      W (field-Sound name read_name_list _ read_name_list-Sound)
      (λ l cs _ (body, ec, small, parsed).
        let same = (parse_sound body l parsed).0 in
        let valid : (NameList.parse l.body ≡ ok l) × IsString l.body =
          (ap NameList.parse same ∙ parsed, subst (λ b. IsString b) (sym same) small) in
        rw ec (subst (λ b. Exact (f l) (λ a ds. W a (wire_string b ++ ds))) same (p l valid)))
