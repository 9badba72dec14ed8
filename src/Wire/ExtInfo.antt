-- ===== src/Wire/ExtInfo.antt =====
-- crates/tatami_ssh_wire/src/ext_info.rs: the `SSH_MSG_EXT_INFO` payload.
pub mod Walk
pub mod Codec
pub mod Owned
pub mod Iterate
use Prim.Native.String.{String}
use tatami_ssh.Prelude.{
  ℕ, zero, suc, ◌+◌, ◌-◌, ◌/◌, ◌^◌, Bool, true, false, ◌||◌, Option, none, some, List, [], ◌∷◌,
  Bytes, Result, ok, err, Outcome, done, fail, and_then, result, ◌>>=◌, ◌>>◌, pure, ltb, leb, ◌==◌,
  if◌then◌else◌, length, bytes_eq, codes,
}
use tatami_ssh.Wire.Error.{EncodeError, MessageError, InvalidEncoding, length_overflow}
use tatami_ssh.Wire.Msg
use tatami_ssh.Wire.NameList
use tatami_ssh.Wire.NameList.{NameList}
use tatami_ssh.Wire.Reader.{Reader, remaining_len, is_empty, read_u32, read_string}
use tatami_ssh.Wire.Writer.{Write, write_u8, write_u32, write_string}
use tatami_ssh.Wire.Message.{Parser, expect_message, field, finish, decode, encode}

abbrev pub min_pair_len : ℕ
min_pair_len = 8

pub data KnownExtension : Type 0 where
  server_sig_algs : KnownExtension
  delay_compression : KnownExtension
  no_flow_control : KnownExtension
  elevation : KnownExtension

-- `KnownExtension::name`.
unfoldable pub name : KnownExtension → Bytes
name server_sig_algs = codes "server-sig-algs"
name delay_compression = codes "delay-compression"
name no_flow_control = codes "no-flow-control"
name elevation = codes "elevation"

unfoldable pub classify_extension : Bytes → Option KnownExtension
classify_extension n =
    if bytes_eq n (codes "server-sig-algs")
    then some server_sig_algs
    else if bytes_eq n (codes "delay-compression")
    then some delay_compression
    else if bytes_eq n (codes "no-flow-control")
    then some no_flow_control
    else if bytes_eq n (codes "elevation")
    then some elevation
    else none

pub data ExtInfoError : Type 0 where
  message : MessageError → ExtInfoError
  too_many_extensions : (claimed max : ℕ) → ExtInfoError
  count_mismatch : (claimed found : ℕ) → ExtInfoError
  invalid_server_sig_algs : InvalidEncoding → ExtInfoError

pub record ExtInfo : Type 0 where
  pub claimed : ℕ
  pub count : ℕ
  pub body : Reader

abbrev pub Pair : Type 0
Pair = Bytes × Bytes

-- The count field; `usize::try_from` of a `u32` succeeds on a 64-bit target.
unfoldable pub read_count : Parser ExtInfo
read_count r = and_then (field "nr-extensions" read_u32 r) (λ claimed u.
    if leb claimed (remaining_len u / min_pair_len)
    then done (record { claimed = claimed; count = claimed; body = u }) u
    else fail (MessageError.field "nr-extensions" r.pos (length_overflow claimed (remaining_len u)))
        u)

pub ext_info_fields : Parser ExtInfo
ext_info_fields = do expect_message Msg.ext_info; read_count

-- `ExtInfo::decode`.
unfoldable pub ext_info_decode : Bytes → Result MessageError ExtInfo
unfolding ext_info_fields
ext_info_decode = decode ext_info_fields

abbrev pub claimed_count : ExtInfo → ℕ
claimed_count e = e.claimed

unfoldable pub read_pair : Parser Pair
read_pair = do
  name ← field "extension-name" read_string
  value ← field "extension-value" read_string
  pure (name, value)

-- The loop of `validate` over the pairs not yet read.
unfoldable pub walk : ℕ → ℕ → ℕ → Reader → Result ExtInfoError Reader
walk claimed zero found r = ok r
walk claimed (suc n) found r =
    if is_empty r
    then err (count_mismatch claimed found)
    else elim (read_pair r) [ done _ u ↦ walk claimed n (found + 1) u | fail e _ ↦ err (message e) ]

-- The part of `validate` behind the loop.
walked : ℕ → Result ExtInfoError Reader → Result ExtInfoError ℕ
walked count (err e) = err e
walked count (ok r) = elim (finish r) [ done _ _ ↦ ok count | fail e _ ↦ err (message e) ]

-- `ExtInfo::validate`.
unfoldable pub validate : ExtInfo → ℕ → Result ExtInfoError ℕ
unfolding walk walked
validate e max =
    if ltb max e.count
    then err (too_many_extensions e.claimed max)
    else walked e.count (walk e.claimed e.count 0 e.body)

-- The iterator.
pub record Extensions : Type 0 where
  pub r : Reader
  pub remaining : ℕ
  pub failed : Bool

unfoldable pub extensions : ExtInfo → Extensions
extensions e = record { r = e.body; remaining = e.count; failed = false }

-- `Extensions::next`.
unfoldable pub next : Extensions → Option (Result MessageError Pair) × Extensions
next it = if it.failed || (it.remaining == 0) then (none, it) else elim (read_pair it.r) [
  | done pair u ↦ (some (ok pair), record it { r = u; remaining = it.remaining - 1 })
  | fail e u ↦ (some (err e), record it { r = u; failed = true })
]

unfoldable pub size_hint : Extensions → ℕ × Option ℕ
size_hint it = if it.failed then (0, some 0) else (0, some it.remaining)

-- The loop of `server_sig_algs`. Each round but the last uses up one of the remaining pairs, so one
-- more than their number is enough fuel.
unfoldable pub find_sig_algs : ℕ → Extensions → Option (Result ExtInfoError NameList)
unfolding next
find_sig_algs zero it = none
find_sig_algs (suc fuel) it =
    let (item, it') = next it in
    let rest = find_sig_algs fuel it' in
    elim item [
      | none ↦ none
      | some pair ↦ elim pair [
        | err e ↦ some (err (message e))
        | ok (n, value) ↦
            if bytes_eq n (name server_sig_algs)
            then some (elim (NameList.parse value) [
              | ok list ↦ ok list
              | err e ↦ err (invalid_server_sig_algs e)
            ])
            else rest
      ]
    ]

-- `ExtInfo::server_sig_algs`.
unfoldable pub server_sig_algs_list : ExtInfo → Option (Result ExtInfoError NameList)
unfolding find_sig_algs extensions
server_sig_algs_list e = find_sig_algs (suc e.count) (extensions e)

-- The loop of `encode_ext_info`.
unfoldable pub write_pairs : List Pair → Write
write_pairs [] = pure tt
write_pairs ((n, v) ∷ ps) = do write_string n; write_string v; write_pairs ps

pub ext_info_writes : List Pair → Write
unfolding write_pairs
ext_info_writes pairs = do write_u8 Msg.ext_info; write_u32 (length pairs); write_pairs pairs

-- `encode_ext_info`, and `OwnedExtInfo::encode`, which calls it on its pairs.
unfoldable pub encode_ext_info : List Pair → Bytes → Outcome Bytes EncodeError ℕ
unfolding ext_info_writes
encode_ext_info pairs out =
    if leb (2 ^ 32) (length pairs)
    then fail (EncodeError.length_overflow (length pairs)) out
    else encode (ext_info_writes pairs) out

-- The loop of `to_owned`; the fuel is as for `server_sig_algs`.
unfoldable pub collect : ℕ → Extensions → Result ExtInfoError (List Pair)
collect zero it = ok []
collect (suc fuel) it =
    let (item, it') = next it in
    let rest = collect fuel it' in
    elim item [
      | none ↦ ok []
      | some pair ↦ elim pair [
        | err e ↦ err (message e)
        | ok p ↦ elim rest [ ok ps ↦ ok (p ∷ ps) | err e ↦ err e ]
      ]
    ]

-- `ExtInfo::to_owned`; the owned message is the list of its pairs.
unfoldable pub to_owned : ExtInfo → ℕ → Result ExtInfoError (List Pair)
to_owned e max = elim (validate e max) [
  | err x ↦ err x
  | ok count ↦ collect (suc e.count) (extensions e)
]
