-- ===== src/Tcp/Negotiate/Strict.antt =====
-- crates/tatami_ssh_tcp/src/negotiate.rs: when strict key exchange is on.
use tatami_ssh.Prelude.{
  true, ◌&&◌, &&_inv, ◌≡◌, ◌↔◌, inl, inr, refl, subst, Option, none, some, Bytes, any_iff, Decides,
  or_inv, or_intro,
}
use tatami_ssh.Wire.NameList
use tatami_ssh.Wire.NameList.{NameList}
use tatami_ssh.Wire.KexInit.{KexInit}
use tatami_ssh.Wire.KexInit.Markers.{
  StrictKexMarker, StrictKexRole, StrictKexSpelling, client, server, standard, openssh_v00, name,
  classify_strict_kex_name, same_spelling,
}
use tatami_ssh.Wire.KexInit.Names.{same_spelling-inv, classify_strict_kex_name_iff}
use tatami_ssh.Tcp.Negotiate.{offers, marker_is, same_role, evaluate}
use tatami_ssh.Tcp.Negotiate.Picks.{In}

abbrev pub marker_of : StrictKexRole → StrictKexSpelling → Bytes
marker_of r s = name (record { role = r; spelling = s })

same_role-inv : (r t : StrictKexRole) → same_role r t ≡ true → r ≡ t
unfolding same_role
same_role-inv client client h = refl
same_role-inv client server h = absurd cc
same_role-inv server client h = absurd cc
same_role-inv server server h = refl

marker_is_self :
    (r : StrictKexRole) (s : StrictKexSpelling)
    → marker_is r s (some (record { role = r; spelling = s })) ≡ true
unfolding marker_is same_role
marker_is_self client standard = refl
marker_is_self client openssh_v00 = refl
marker_is_self server standard = refl
marker_is_self server openssh_v00 = refl

marker_is-inv :
    (r : StrictKexRole) (s : StrictKexSpelling) (o : Option StrictKexMarker)
    → marker_is r s o ≡ true
    → o ≡ some (record { role = r; spelling = s })
unfolding marker_is
marker_is-inv r s none h = absurd cc
marker_is-inv r s (some m) h =
    let (a, b) = &&_inv (same_role m.role r) (same_spelling m.spelling s) h in
    let role = same_role-inv m.role r a in
    let spelling = same_spelling-inv m.spelling s b in rw (← role, spelling) refl

marker_test-decides :
    (r : StrictKexRole) (s : StrictKexSpelling)
    → Decides (λ n. marker_is r s (classify_strict_kex_name n)) (λ n. n ≡ marker_of r s)
marker_test-decides r s n =
    let iff = classify_strict_kex_name_iff n (record { role = r; spelling = s }) in
    (
      λ h. iff.0 (marker_is-inv r s (classify_strict_kex_name n) h),
      λ e. rw (iff.1 e) (marker_is_self r s),
    )

pub offers_iff :
    (l : NameList) (r : StrictKexRole) (s : StrictKexSpelling)
    → (offers l r s ≡ true) ↔ In l (marker_of r s)
unfolding offers
offers_iff l r s =
    let iff =
      any_iff (λ n. marker_is r s (classify_strict_kex_name n)) (λ n. n ≡ marker_of r s)
        (NameList.names l) (marker_test-decides r s) in
    (λ h. let (n, m, e) = iff.0 h in subst (λ x. In l x) e m, λ m. iff.1 (marker_of r s, m, refl))

evaluate-pair :
    (c s : KexInit) (spelling : StrictKexSpelling)
    → offers c.kex_algorithms client spelling ≡ true
    → offers s.kex_algorithms server spelling ≡ true
    → (evaluate c s).negotiated ≡ true
unfolding evaluate
evaluate-pair c s standard x y =
    or_intro
      (offers c.kex_algorithms client openssh_v00 && offers s.kex_algorithms server openssh_v00)
      (offers c.kex_algorithms client standard && offers s.kex_algorithms server standard)
      (inr (rw (x, y) refl))
evaluate-pair c s openssh_v00 x y =
    or_intro
      (offers c.kex_algorithms client openssh_v00 && offers s.kex_algorithms server openssh_v00)
      (offers c.kex_algorithms client standard && offers s.kex_algorithms server standard)
      (inl (rw (x, y) refl))

-- Strict key exchange is negotiated exactly when, for one of the two spellings, the client lists the
-- client's marker and the server lists the server's marker of that spelling.
pub evaluate_iff :
    (c s : KexInit)
    → ((evaluate c s).negotiated ≡ true) ↔ (
        (spelling : StrictKexSpelling) × In c.kex_algorithms (marker_of client spelling)
        × In s.kex_algorithms (marker_of server spelling))
unfolding evaluate
evaluate_iff c s =
    let a = offers_iff c.kex_algorithms client openssh_v00 in
    let b = offers_iff s.kex_algorithms server openssh_v00 in
    let d = offers_iff c.kex_algorithms client standard in
    let e = offers_iff s.kex_algorithms server standard in
    (
      λ h. elim (or_inv _ _ h) [
        | inl k ↦ let (x, y) = &&_inv _ _ k in (openssh_v00, a.0 x, b.0 y)
        | inr k ↦ let (x, y) = &&_inv _ _ k in (standard, d.0 x, e.0 y)
      ],
      λ (spelling, x, y).
          evaluate-pair c s spelling ((offers_iff c.kex_algorithms client spelling).1 x)
            ((offers_iff s.kex_algorithms server spelling).1 y),
    )
