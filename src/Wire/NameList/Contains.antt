-- ===== src/Wire/NameList/Contains.antt =====
-- crates/tatami_ssh_wire/src/namelist.rs: `contains` is membership in the list of names.
use mathlib.Core.List.Memᴰ.{head, tail}
use tatami_ssh.Prelude.{
  true, ◌≡◌, ◌↔◌, inl, inr, sym, List, [], ◌∷◌, Bytes, Memᴰ, bytes_eq, bytes_eq_iff, or_inv,
  or_intro,
}
use tatami_ssh.Wire.NameList.{NameList, any_eq, names, contains}

any_eq-mem : (n : Bytes) (ns : List Bytes) → any_eq n ns ≡ true → Memᴰ n ns
unfolding any_eq
any_eq-mem n [] h = absurd cc
any_eq-mem n (m ∷ ns) h = elim (or_inv (bytes_eq m n) (any_eq n ns) h) [
  | inl e ↦ head (sym ((bytes_eq_iff m n).0 e))
  | inr r ↦ tail (any_eq-mem n ns r)
]

mem-any_eq : (n : Bytes) (ns : List Bytes) → Memᴰ n ns → any_eq n ns ≡ true
unfolding any_eq
mem-any_eq n [] m = elim m [ ]
mem-any_eq n (m ∷ ns) (head e) =
    or_intro (bytes_eq m n) (any_eq n ns) (inl ((bytes_eq_iff m n).1 (sym e)))
mem-any_eq n (m ∷ ns) (tail r) = or_intro (bytes_eq m n) (any_eq n ns) (inr (mem-any_eq n ns r))

pub any_eq_iff : (n : Bytes) (ns : List Bytes) → (any_eq n ns ≡ true) ↔ Memᴰ n ns
any_eq_iff n ns = (any_eq-mem n ns, mem-any_eq n ns)

pub contains_iff : (l : NameList) (n : Bytes) → (contains l n ≡ true) ↔ Memᴰ n (names l)
unfolding contains
contains_iff l n = any_eq_iff n (names l)
