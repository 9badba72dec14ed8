-- ===== src/Wire/Message/Encodes.antt =====
-- From the bytes that a message's fields write to its `encode`.
use tatami_ssh.Prelude.{
  ℕ, ◌≤◌, ◌<◌, ◌≡◌, arith, Bytes, Result, ok, Outcome, done, fail, length, take, ap, ◌∙◌,
}
use tatami_ssh.Wire.Error.{EncodeError, MessageError}
use tatami_ssh.Wire.Writer
use tatami_ssh.Wire.Writer.{Write}
use tatami_ssh.Wire.Writer.Emits.{Emits}
use tatami_ssh.Wire.Message.{encode}

-- The call succeeded: it wrote exactly `wire` at the front of the buffer, keeps the buffer's size
-- and returns the number of bytes written.
pub record Encoded (call : Outcome Bytes EncodeError ℕ) (out wire : Bytes) : Type 0 where
  pub buffer : Bytes
  pub succeeded : call ≡ done (length wire) buffer
  pub front : take (length wire) buffer ≡ wire
  pub size : length buffer ≡ length out

abbrev pub Failed : Outcome Bytes EncodeError ℕ → Type 0
Failed call = (e : EncodeError) × (buffer : Bytes) × (call ≡ fail e buffer)

pub encode-Encoded :
    (fields : Write) (wire out : Bytes)
    → Emits fields wire
    → length wire ≤ length out
    → Encoded (encode fields out) out wire
unfolding encode
encode-Encoded fields wire out p h =
    let (w, e, wrote) = p.0 (Writer.new out) (record { pos_le = omega arith }) (omega arith) in
    let at : length wire ≡ w.pos = omega (arith, wrote.moved) in
    record {
      buffer = w.out;
      succeeded = rw (e, encode) (ap (λ n. done n w.out) (omega (arith, wrote.moved)));
      front = ap (λ n. take n w.out) at ∙ wrote.appended;
      size = wrote.size;
    }

pub encode-Failed :
    (fields : Write) (wire out : Bytes)
    → Emits fields wire
    → length out < length wire
    → Failed (encode fields out)
unfolding encode
encode-Failed fields wire out p h =
    let (x, w, e) = p.1 (Writer.new out) (record { pos_le = omega arith }) (omega arith) in
    (x, w.out, rw (e, encode))

-- A call that wrote a message's bytes, and a decoder that accepts them, make a round trip.
pub Encoded-decode :
    {A : Type 0} (decode : Bytes → Result MessageError A) (call : Outcome Bytes EncodeError ℕ)
    (out wire : Bytes) (a : A)
    → decode wire ≡ ok a
    → (done : Encoded call out wire) → decode (take (length wire) done.buffer) ≡ ok a
Encoded-decode decode call out wire a e d = ap decode d.front ∙ e
