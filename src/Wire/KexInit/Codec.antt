-- ===== src/Wire/KexInit/Codec.antt =====
-- crates/tatami_ssh_wire/src/kexinit.rs: the wire form of the message, from the encoder to the decoder.
use tatami_ssh.Prelude.{
  ℕ, ◌≤◌, ◌≡◌, refl, [], ◌∷◌, ◌++◌, List, Bytes, All, IsU32, ok, length, if◌then◌else◌, ◌∙◌, sym,
  ap, subst, append_assoc,
}
use tatami_ssh.Wire.Bytes.{wire_string, to_be32}
use tatami_ssh.Wire.Msg
use tatami_ssh.Wire.NameList
use tatami_ssh.Wire.NameList.{NameList}
use tatami_ssh.Wire.NameList.Pieces.{parse_sound}
use tatami_ssh.Wire.Writer.{write_u8, write_bytes, write_bool, write_name_list}
use tatami_ssh.Wire.Writer.NameLists.{write_name_list-Emits, pure-Emits}
use tatami_ssh.Wire.Writer.Emits.{
  Emits, >>-Emits, write_u8-Emits, write_bytes-Emits, write_bool-Emits, write_u32-Emits,
}
use tatami_ssh.Wire.Message.Accepts.{
  Accepts, message-Accepts, last-Accepts, bool-Accepts, u32-Accepts, finish-Accepts, decode-Accepts,
  name_list-Accepts, bytes-Accepts,
}
use tatami_ssh.Wire.Message.Encodes.{Encoded, encode-Encoded}
use tatami_ssh.Wire.KexInit.{
  KexInit, kexinit_fields, kexinit_decode, kexinit_writes, kexinit_encode, name_lists, write_lists,
}

-- A name list that the parser returns, with a body that fits a `string`.
abbrev pub IsNameList : NameList → Type 0
IsNameList l = (NameList.parse l.body ≡ ok l) × IsU32 (length l.body)

-- The lists on the wire, and `tail` behind them.
abbrev pub wire_lists : List NameList → Bytes → Bytes
wire_lists [] tail = tail
wire_lists (l ∷ ls) tail = wire_string l.body ++ wire_lists ls tail

-- The wire form, with the byte that stands for `first_kex_packet_follows`.
abbrev pub kexinit_wire_as : KexInit → ℕ → Bytes
kexinit_wire_as m follows =
    (Msg.kexinit ∷ [])
    ++ (m.cookie ++ wire_lists (name_lists m) ((follows ∷ []) ++ to_be32 m.reserved))

abbrev pub kexinit_wire : KexInit → Bytes
kexinit_wire m = kexinit_wire_as m (if m.first_kex_packet_follows then 1 else 0)

pub record IsKexInit (m : KexInit) : Type 0 where
  pub cookie : length m.cookie ≡ 16
  pub lists : All IsNameList (name_lists m)
  pub reserved : IsU32 m.reserved

name_list-Emits :
    (l : NameList) → IsNameList l → Emits (write_name_list (NameList.names l)) (wire_string l.body)
name_list-Emits l h =
    let (_, names, joined) = parse_sound l.body l h.0 in
    subst (λ b. Emits (write_name_list (NameList.names l)) (wire_string b)) joined
      (write_name_list-Emits (NameList.names l) names
        (subst (λ b. IsU32 (length b)) (sym joined) h.1))

lists-Emits : (ls : List NameList) → All IsNameList ls → Emits (write_lists ls) (wire_lists ls [])
unfolding write_lists
lists-Emits [] h = pure-Emits
lists-Emits (l ∷ ls) h =
    >>-Emits (write_name_list (NameList.names l)) (write_lists ls) _ _ (name_list-Emits l h.0)
      (lists-Emits ls h.1)

wire_lists-append :
    (ls : List NameList) (a b : Bytes) → wire_lists ls a ++ b ≡ wire_lists ls (a ++ b)
wire_lists-append [] a b = refl
wire_lists-append (l ∷ ls) a b =
    append_assoc (wire_string l.body) (wire_lists ls a) b
    ∙ ap (λ t. wire_string l.body ++ t) (wire_lists-append ls a b)

kexinit-Emits : (m : KexInit) → IsKexInit m → Emits (kexinit_writes m) (kexinit_wire m)
unfolding kexinit_writes
kexinit-Emits m h =
    let tail = ((if m.first_kex_packet_follows then 1 else 0) ∷ []) ++ to_be32 m.reserved in
    rw (← wire_lists-append (name_lists m) [] tail) (
      >>-Emits (write_u8 Msg.kexinit) _ (Msg.kexinit ∷ []) _ (write_u8-Emits Msg.kexinit) (
        >>-Emits (write_bytes m.cookie) _ m.cookie _ (write_bytes-Emits m.cookie) (
          >>-Emits (write_lists (name_lists m)) _ _ tail (lists-Emits (name_lists m) h.lists) (
            >>-Emits (write_bool m.first_kex_packet_follows) _ _ _
              (write_bool-Emits m.first_kex_packet_follows) (write_u32-Emits m.reserved)))))

kexinit-Accepts : (m : KexInit) → IsKexInit m → Accepts kexinit_fields (kexinit_wire m) m
unfolding kexinit_fields
kexinit-Accepts m h =
    let l = h.lists in
    message-Accepts Msg.kexinit _ _ _ (
      bytes-Accepts m.cookie 16 h.cookie _ _ _ _ (
        name_list-Accepts _ l.0 _ _ _ _ (
          name_list-Accepts _ l.1.0 _ _ _ _ (
            name_list-Accepts _ l.1.1.0 _ _ _ _ (
              name_list-Accepts _ l.1.1.1.0 _ _ _ _ (
                name_list-Accepts _ l.1.1.1.1.0 _ _ _ _ (
                  name_list-Accepts _ l.1.1.1.1.1.0 _ _ _ _ (
                    name_list-Accepts _ l.1.1.1.1.1.1.0 _ _ _ _ (
                      name_list-Accepts _ l.1.1.1.1.1.1.1.0 _ _ _ _ (
                        name_list-Accepts _ l.1.1.1.1.1.1.1.1.0 _ _ _ _ (
                          name_list-Accepts _ l.1.1.1.1.1.1.1.1.1.0 _ _ _ _ (
                            bool-Accepts m.first_kex_packet_follows _ _ _ _ (
                              last-Accepts _ _ m (
                                u32-Accepts m.reserved h.reserved _ _ _ _
                                  (finish-Accepts m)))))))))))))))

pub decode-kexinit_wire : (m : KexInit) → IsKexInit m → kexinit_decode (kexinit_wire m) ≡ ok m
unfolding kexinit_decode
decode-kexinit_wire m h = decode-Accepts kexinit_fields (kexinit_wire m) m (kexinit-Accepts m h)

pub kexinit-Encoded :
    (m : KexInit) (out : Bytes)
    → IsKexInit m
    → length (kexinit_wire m) ≤ length out
    → Encoded (kexinit_encode m out) out (kexinit_wire m)
unfolding kexinit_encode
kexinit-Encoded m out h fits =
    encode-Encoded (kexinit_writes m) (kexinit_wire m) out (kexinit-Emits m h) fits
