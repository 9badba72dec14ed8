-- ===== src/Tcp/Negotiate/Picks.antt =====
-- crates/tatami_ssh_tcp/src/negotiate.rs: what each search of the negotiation finds.
use tatami_ssh.Prelude.{
  Bool-cases, inl, inr, Bool, true, false, ◌&&◌, &&_inv, ◌≡◌, ◌↔◌, refl, sym, ◌∙◌, none, some,
  Bytes, Memᴰ, filter, find-filter, filter_mem, Chosen, NoneOf, Decides, find-Chosen, find-NoneOf,
}
use tatami_ssh.Wire.NameList
use tatami_ssh.Wire.NameList.{NameList, any_eq}
use tatami_ssh.Wire.NameList.Contains.{any_eq_iff, contains_iff}
use tatami_ssh.Wire.KexInit.{KexInit}
use tatami_ssh.Wire.KexInit.Markers.{
  KexName, classify_kex_name, is_marker, method, ext_info_client, ext_info_server,
  strict_kex_client, strict_kex_server,
}
use tatami_ssh.Wire.KexInit.Names.{IsMarkerName, is_marker_iff}
use tatami_ssh.Tcp.Negotiate.{is_method, first_common, common_method}

-- A name that stands in the list.
abbrev pub In : NameList → Bytes → Type 0
In l n = Memᴰ n (NameList.names l)

-- The first name of `c` that stands in `s`, and that there is none.
abbrev pub FirstCommon : NameList → NameList → Bytes → Type 0
FirstCommon c s = Chosen (In s) (NameList.names c)

abbrev pub NoCommon : NameList → NameList → Type 0
NoCommon c s = NoneOf (In s) (NameList.names c)

pub first_common-some : (c s : NameList) (n : Bytes) → first_common c s ≡ some n → FirstCommon c s n
unfolding first_common
first_common-some c s n =
    find-Chosen (λ x. NameList.contains s x) (In s) (NameList.names c) (contains_iff s) n

pub first_common-none : (c s : NameList) → first_common c s ≡ none → NoCommon c s
unfolding first_common
first_common-none c s =
    find-NoneOf (λ x. NameList.contains s x) (In s) (NameList.names c) (contains_iff s)

-- A name of the list that is no marker.
abbrev pub IsMethodOf : NameList → Bytes → Type 0
IsMethodOf s n = (¬ IsMarkerName n) × In s n

not_marker : (k : KexName) → (elim k [ method ↦ true | _ ↦ false ] ≡ true) ↔ (is_marker k ≡ false)
unfolding is_marker
not_marker method = ((λ _. refl), λ _. refl)
not_marker ext_info_client = ((λ h. absurd cc), λ h. absurd cc)
not_marker ext_info_server = ((λ h. absurd cc), λ h. absurd cc)
not_marker strict_kex_client = ((λ h. absurd cc), λ h. absurd cc)
not_marker strict_kex_server = ((λ h. absurd cc), λ h. absurd cc)

pub is_method_iff : (n : Bytes) → (is_method n ≡ true) ↔ (¬ IsMarkerName n)
unfolding is_method
is_method_iff n = (
  λ h m.
      let f = (not_marker (classify_kex_name n)).0 h in let t = (is_marker_iff n).1 m in absurd cc,
  λ h. (not_marker (classify_kex_name n)).1 (elim (Bool-cases (is_marker (classify_kex_name n))) [
    | inl t ↦ absurd (h ((is_marker_iff n).0 t))
    | inr f ↦ f
  ]),
)

method_test : (s : NameList) → Bytes → Bool
method_test s n = is_method n && any_eq n (filter is_method (NameList.names s))

method_test-decides : (s : NameList) → Decides (method_test s) (IsMethodOf s)
unfolding method_test
method_test-decides s n =
    let names = NameList.names s in
    (
      λ h.
          let (a, b) = &&_inv (is_method n) (any_eq n (filter is_method names)) h in
          (
            (is_method_iff n).0 a,
            ((filter_mem is_method names n).0 ((any_eq_iff n (filter is_method names)).0 b)).0,
          ),
      λ (free, m).
          let a = (is_method_iff n).1 free in
          rw a
            ((any_eq_iff n (filter is_method names)).1 ((filter_mem is_method names n).1 (m, a))),
    )

pub common_method-some :
    (c s : KexInit) (n : Bytes)
    → common_method c s ≡ some n
    → Chosen (IsMethodOf s.kex_algorithms) (NameList.names c.kex_algorithms) n
unfolding common_method method_test
common_method-some c s n e =
    find-Chosen (method_test s.kex_algorithms) (IsMethodOf s.kex_algorithms)
      (NameList.names c.kex_algorithms) (method_test-decides s.kex_algorithms) n
      (sym (
          find-filter (λ x. any_eq x (filter is_method (NameList.names s.kex_algorithms))) is_method
            (NameList.names c.kex_algorithms))
        ∙ e)

pub common_method-none :
    (c s : KexInit)
    → common_method c s ≡ none
    → NoneOf (IsMethodOf s.kex_algorithms) (NameList.names c.kex_algorithms)
unfolding common_method method_test
common_method-none c s e =
    find-NoneOf (method_test s.kex_algorithms) (IsMethodOf s.kex_algorithms)
      (NameList.names c.kex_algorithms) (method_test-decides s.kex_algorithms)
      (sym (
          find-filter (λ x. any_eq x (filter is_method (NameList.names s.kex_algorithms))) is_method
            (NameList.names c.kex_algorithms))
        ∙ e)
