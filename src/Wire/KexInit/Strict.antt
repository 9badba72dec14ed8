-- ===== src/Wire/KexInit/Strict.antt =====
-- crates/tatami_ssh_wire/src/kexinit.rs: which payloads the decoder accepts.
use tatami_ssh.Prelude.{ℕ, ◌≡◌, refl, not, Bytes, IsByte, All, ok, append-nil, ◌==◌}
use tatami_ssh.Wire.Bytes.{to_be32}
use tatami_ssh.Wire.Msg
use tatami_ssh.Wire.Message.Exact.{
  message-Exact, bytes-Exact, name_list-Exact, bool-Exact, u32-Exact, finish-Exact, decode-Exact,
}
use tatami_ssh.Wire.KexInit.{KexInit, kexinit_fields, kexinit_decode}
use tatami_ssh.Wire.KexInit.Codec.{IsKexInit, kexinit_wire_as}

-- The message stands for the payload: well-formed, and written with some byte for the flag.
pub record Stands (m : KexInit) (payload : Bytes) : Type 0 where
  pub valid : IsKexInit m
  pub follows : ℕ
  pub flag : m.first_kex_packet_follows ≡ not (follows == 0)
  pub wire : kexinit_wire_as m follows ≡ payload

-- A KEXINIT that decodes from a payload of bytes has a 16-byte cookie, ten syntactically valid name
-- lists and a 32-bit reserved field, and the payload is exactly the wire form of these fields, with
-- a byte for `first_kex_packet_follows` that is nonzero exactly where the flag is set.
pub kexinit_decode-wire :
    (payload : Bytes) (m : KexInit)
    → All IsByte payload
    → kexinit_decode payload ≡ ok m
    → Stands m payload
unfolding kexinit_decode kexinit_fields
kexinit_decode-wire payload m bytes h =
    decode-Exact kexinit_fields Stands payload m bytes
      (message-Exact Msg.kexinit _ _ (
        bytes-Exact _ _ _ _ (λ cookie hc. name_list-Exact _ _ _ (λ l0 h0.
          name_list-Exact _ _ _ (λ l1 h1. name_list-Exact _ _ _ (λ l2 h2.
            name_list-Exact _ _ _ (λ l3 h3. name_list-Exact _ _ _ (λ l4 h4.
              name_list-Exact _ _ _ (λ l5 h5. name_list-Exact _ _ _ (λ l6 h6.
                name_list-Exact _ _ _ (λ l7 h7. name_list-Exact _ _ _ (λ l8 h8.
                  name_list-Exact _ _ _ (λ l9 h9. bool-Exact _ _ _ (λ b x hb.
                    u32-Exact _ _ _ (λ v hv. finish-Exact {A = KexInit} _ _ (
                      rw (append-nil (to_be32 v)) (record {
                        valid = record {
                          cookie = hc;
                          lists = (h0, (h1, (h2, (h3, (h4, (h5, (h6, (h7, (h8, (h9, tt))))))))));
                          reserved = hv;
                        };
                        follows = x;
                        flag = hb;
                        wire = refl;
                      })))))))))))))))))
      h
