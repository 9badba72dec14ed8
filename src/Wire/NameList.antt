-- ===== src/Wire/NameList.antt =====
-- crates/tatami_ssh_wire/src/namelist.rs: the borrowed, validated name list and its iterator.
pub mod Join
pub mod Pieces
pub mod Contains
use tatami_ssh.Prelude.{
  ℕ, zero, suc, ◌+◌, Bool, true, false, not, ◌&&◌, ◌||◌, Option, none, some, List, [], ◌∷◌, Bytes,
  Result, ok, err, ltb, ◌==◌, if◌then◌else◌, length, bytes_eq,
}
use tatami_ssh.Wire.Error.{InvalidEncoding, name_list_non_ascii, name_list_empty_name}

pub record NameList : Type 0 where
  pub body : Bytes

-- `NameList::EMPTY`.
abbrev pub empty : NameList
empty = record { body = [] }

unfoldable pub as_bytes : NameList → Bytes
as_bytes l = l.body

unfoldable pub is_empty : NameList → Bool
is_empty l = elim l.body [ [] ↦ true | b ∷ bs ↦ false ]

unfoldable pub is_name_byte : ℕ → Bool
is_name_byte b = ltb 0x20 b && ltb b 0x7f && not (b == b',')

unfoldable pub all_name_bytes : Bytes → Bool
unfolding is_name_byte
all_name_bytes [] = true
all_name_bytes (b ∷ bs) = is_name_byte b && all_name_bytes bs

unfoldable pub is_valid_name : Bytes → Bool
unfolding all_name_bytes
is_valid_name [] = false
is_valid_name (b ∷ bs) = all_name_bytes (b ∷ bs)

-- The loop of `parse` over the bytes not yet seen; it returns `name_start` as the loop leaves it.
parse_from : ℕ → ℕ → Bytes → Result InvalidEncoding ℕ
parse_from offset name_start [] = ok name_start
parse_from offset name_start (b ∷ bs) =
    let rest = parse_from (offset + 1) (if b == b',' then offset + 1 else name_start) bs in
    if b == b','
    then (if offset == name_start then err (name_list_empty_name offset) else rest)
    else if not (is_name_byte b)
    then err (name_list_non_ascii offset)
    else rest

-- The test behind the loop: a trailing comma.
parse_end : Bytes → Result InvalidEncoding ℕ → Result InvalidEncoding NameList
parse_end body (err e) = err e
parse_end body (ok name_start) =
    if name_start == length body
    then err (name_list_empty_name name_start)
    else ok (record { body = body })

unfoldable pub parse : Bytes → Result InvalidEncoding NameList
unfolding parse_from parse_end is_name_byte
parse [] = ok (record { body = [] })
parse (b ∷ bs) = parse_end (b ∷ bs) (parse_from 0 0 (b ∷ bs))

-- The iterator's state is the `rest` of `Names`.
abbrev pub Names : Type 0
Names = Option Bytes

-- The bytes before the first comma, and those after it if there is one.
unfoldable pub split_comma : Bytes → Bytes × Option Bytes
split_comma [] = ([], none)
split_comma (b ∷ bs) =
    let (name, after) = split_comma bs in if b == b',' then ([], some bs) else (b ∷ name, after)

unfoldable pub next : Names → Option Bytes × Names
unfolding split_comma
next none = (none, none)
next (some rest) = let (name, after) = split_comma rest in (some name, after)

unfoldable pub iter : NameList → Names
iter l = elim l.body [ [] ↦ none | b ∷ bs ↦ some (b ∷ bs) ]

-- Calls `next` until it returns `None`. Every call but the last uses up a byte of the list or ends
-- it, so one more than the length is enough fuel.
unfoldable pub collect : ℕ → Names → List Bytes
unfolding next
collect zero n = []
collect (suc fuel) n =
    let (item, n') = next n in elim item [ none ↦ [] | some name ↦ name ∷ collect fuel n' ]

unfoldable pub names : NameList → List Bytes
unfolding collect iter
names l = collect (suc (length l.body)) (iter l)

unfoldable pub count_names : NameList → ℕ
unfolding names
count_names l = length (names l)

unfoldable pub any_eq : Bytes → List Bytes → Bool
any_eq name [] = false
any_eq name (n ∷ ns) = bytes_eq n name || any_eq name ns

unfoldable pub contains : NameList → Bytes → Bool
unfolding names any_eq
contains l name = any_eq name (names l)
