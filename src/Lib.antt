-- ===== src/Lib.antt =====
-- A model of the parts of the SSH library that read and write wire data,
-- frame and negotiate the first exchange over TCP, and open channels.
--
-- The parts of the program and the files that model them:
--
-- * `Wire` is crates/tatami_ssh_wire/src. `Wire.Reader`, `Wire.Mpint` and `Wire.Writer` are
--   primitives.rs, `Wire.NameList` is namelist.rs, `Wire.Error` is error.rs, `Wire.Msg` is msg.rs,
--   `Wire.Message` is message.rs, and `Wire.Transport`, `Wire.Kex` and `Wire.Channel` are the message
--   types of transport.rs, kex.rs and channel.rs, `Wire.DisconnectReason` and
--   `Wire.OpenFailureReason` their tables of reasons. `Wire.Bytes` holds the big-endian words.
-- * `Opening` is crates/tatami_ssh_connection/src/opening.rs. `Opening.Types` has its data,
--   `Opening.Engine` the methods that the application calls, `Opening.Peer` the handlers of the peer's
--   messages. The engine takes the decoded messages of `Wire.Channel` and queues messages that
--   `outgoing_encode` hands to the encoders of `Wire.Channel`.
-- * `Wire.KexInit` is kexinit.rs, with the markers in `Wire.KexInit.Markers` and the owned copy in
--   `Wire.KexInit.Owned`, `Wire.ExtInfo` is ext_info.rs, `Wire.Ident` is ident.rs, and
--   `Wire.Algorithms` is algorithms.rs.
-- * `Keys.Algorithm` is crates/tatami_ssh_keys/src/algorithm.rs, the key types and signature schemes.
-- * `Tcp` is crates/tatami_ssh_tcp/src. `Tcp.Packet` is packet.rs, the framing before the first
--   NEWKEYS. `Tcp.Negotiate` and `Tcp.Proposal` are negotiate.rs: the first has the negotiation on two
--   decoded messages of `Wire.KexInit`, the second the proposal that the client encodes with the
--   writer of `Wire`, and the lists of schemes of `Keys.Algorithm` in it. `Tcp.Ident` is ident.rs: the
--   scanner of lines, which hands an identification to the parser of `Wire.Ident`, and the line that
--   the client sends.
-- * `Prelude` has the names and lemmas that these share.
--
-- How the code is modelled. A byte string is a list of numbers, a `u32` a number that the theorems
-- bound by 2^32. A method that takes `&mut self` is a function from the value to an `Outcome`, which
-- holds the value that the method leaves, on success and on failure alike: `?` is `and_then`, `>>=`
-- or `>>`. A `Reader` is its input and a position, a `Writer` its buffer and a position. A message
-- type `X` has `x_fields` and `x_writes` for the bodies of `decode` and `encode`, and `x_decode` and
-- `x_encode` for the methods. The enum and struct types keep the constructors and fields of the
-- source. An index that is out of range, where the source panics, leaves a list as it is, and
-- `unreachable!` is the error `panic` of `Raised`. `usize` has 64 bits.
--
-- The other modules below `Wire` and `Opening` are proofs. `Wire.Reader.Sound`, `Wire.Writer.Emits` and
-- `Wire.NameList.Join` say what each primitive accepts and appends, `Wire.Message.Exact` and
-- `Wire.Message.Encodes` carry that over to whole messages, and the `Codec` and `Strict` modules apply
-- it to each message. `Opening.Totals` has sums over the slots, `Opening.Slots`, `Opening.Table` and
-- `Opening.Vacate` the slot table, `Opening.Inv` the invariant, `Opening.Numbers` the channel numbers,
-- and the modules after it follow the methods. Every loop of the source is structural recursion,
-- except the iterators of a name list and of the extensions, whose fuel is one more than the length
-- of the list and than the number of pairs left.
--
-- `Tcp.Packet.Frames`, `Tcp.Packet.Sound` and `Tcp.Packet.Decisions` are proofs on the packets,
-- `Tcp.Negotiate.Spec` has the rules of the negotiation as a relation, `Tcp.Negotiate.Picks` what each
-- search finds, `Tcp.Negotiate.Strict` and `Tcp.Negotiate.Profile` the two decisions behind it.
-- `Tcp.Proposal.Fits` bounds the lists of the proposal. `Tcp.Ident.Scan` says which line is found,
-- `Tcp.Ident.Content` which line is an identification, and `Tcp.Ident.Limits` puts them together.
-- `Opening.Loss.Emptied` compares `transport_lost` with a plain list of the live slots. In `Wire.ExtInfo`, `Walk` relates the walk of
-- the validation to the iterator. A `String` that is made from a name of a parsed list is the bytes of
-- the name, which are ASCII. The Cargo features of a build are the argument `Features`.
--
-- Not modelled: the text output of the error types, the rest of
-- the crate for TCP (the initial exchange, the encrypted packets, the handshake and
-- the sockets), the rest of the crate for keys, the crates for QUIC and authentication, the OpenSSH
-- conversions, the command-line facade, and the fuzz harnesses. The crates of sockets and of
-- cryptography call code that is not in the repository.
pub mod Prelude
pub mod Wire
pub mod Opening
pub mod Tcp
pub mod Keys
