-- ===== src/Wire/KexInit/RoundTrips.antt =====
-- crates/tatami_ssh_wire/src/kexinit.rs: encoding the message and decoding what was written.
use tatami_ssh.Prelude.{◌≤◌, Bytes, length}
use tatami_ssh.Wire.KexInit.{KexInit, kexinit_decode, kexinit_encode}
use tatami_ssh.Wire.KexInit.Codec.{IsKexInit, kexinit_wire, decode-kexinit_wire, kexinit-Encoded}
use tatami_ssh.Wire.RoundTrips.{RoundTrip, round_trip}

-- A KEXINIT with a 16-byte cookie, ten syntactically valid name lists that fit the wire, and a 32-bit
-- reserved field encodes into every buffer that has room, and decoding what was written gives it
-- back.
pub kexinit_encode-decode :
    (m : KexInit) (out : Bytes)
    → IsKexInit m
    → length (kexinit_wire m) ≤ length out
    → RoundTrip kexinit_decode m (kexinit_encode m out)
kexinit_encode-decode m out h fits =
    round_trip kexinit_decode m (kexinit_encode m out) out (kexinit_wire m)
      (decode-kexinit_wire m h) (kexinit-Encoded m out h fits)
