-- ===== src/Wire/KexInit/Names.antt =====
-- crates/tatami_ssh_wire/src/kexinit.rs: the markers and their names.
use tatami_ssh.Prelude.{
  true, ◌≡◌, ◌↔◌, refl, sym, Option, none, some, Bytes, bytes_eq, codes, arm_elim, subst, &&_inv,
}
use tatami_ssh.Wire.KexInit.Markers.{
  KexName, StrictKexMarker, StrictKexRole, StrictKexSpelling, client, server, standard, openssh_v00,
  name, pairs_with, classify_strict_kex_name, classify_kex_name, is_marker, strict_kex_name,
  same_spelling, opposite,
}

classify-marker :
    (r : StrictKexRole) (s : StrictKexSpelling)
    → classify_strict_kex_name (name (record { role = r; spelling = s }))
      ≡ some (record { role = r; spelling = s })
unfolding classify_strict_kex_name name bytes_eq
classify-marker client standard = refl
classify-marker server standard = refl
classify-marker client openssh_v00 = refl
classify-marker server openssh_v00 = refl

name-of_some : (n : Bytes) (r m : StrictKexMarker) → n ≡ name r → some r ≡ some m → name m ≡ n
name-of_some n r m e h = let same : r ≡ m = cc in rw (← same, e) refl

classify_inv : (n : Bytes) (m : StrictKexMarker) → classify_strict_kex_name n ≡ some m → name m ≡ n
unfolding classify_strict_kex_name name
classify_inv n m =
    let P = λ (o : Option StrictKexMarker). o ≡ some m → name m ≡ n in
    arm_elim P n _ _ _ (λ e. name-of_some n _ m e)
      (λ _.
        arm_elim P n _ _ _ (λ e. name-of_some n _ m e)
          (λ _.
            arm_elim P n _ _ _ (λ e. name-of_some n _ m e)
              (λ _. arm_elim P n _ _ _ (λ e. name-of_some n _ m e) (λ _ h. absurd cc))))

-- A name is classified as a strict-KEX marker exactly when it is the marker's own name.
pub classify_strict_kex_name_iff :
    (n : Bytes) (m : StrictKexMarker) → (classify_strict_kex_name n ≡ some m) ↔ (n ≡ name m)
classify_strict_kex_name_iff n m =
    ((λ h. sym (classify_inv n m h)), λ e. rw e (classify-marker m.role m.spelling))

-- The six names that are no key exchange methods.
pub data IsMarkerName : Bytes → Type 0 where
  ext_info_c : IsMarkerName (codes "ext-info-c")
  ext_info_s : IsMarkerName (codes "ext-info-s")
  strict : (m : StrictKexMarker) → IsMarkerName (name m)

strict_kex_name-method :
    (n : Bytes) (o : Option StrictKexMarker)
    → classify_strict_kex_name n ≡ o
    → is_marker (strict_kex_name o) ≡ true
    → IsMarkerName n
unfolding strict_kex_name is_marker
strict_kex_name-method n none e h = absurd cc
strict_kex_name-method n (some m) e h = subst IsMarkerName (classify_inv n m e) (strict m)

is_marker-inv : (n : Bytes) → is_marker (classify_kex_name n) ≡ true → IsMarkerName n
unfolding classify_kex_name
is_marker-inv n =
    let P = λ (k : KexName). is_marker k ≡ true → IsMarkerName n in
    arm_elim P n _ _ _ (λ e _. rw e ext_info_c)
      (λ _.
        arm_elim P n _ _ _ (λ e _. rw e ext_info_s)
          (λ _ h. strict_kex_name-method n (classify_strict_kex_name n) refl h))

is_marker-strict :
    (r : StrictKexRole) (s : StrictKexSpelling)
    → is_marker (classify_kex_name (name (record { role = r; spelling = s }))) ≡ true
unfolding classify_strict_kex_name classify_kex_name strict_kex_name is_marker name bytes_eq
is_marker-strict client standard = refl
is_marker-strict server standard = refl
is_marker-strict client openssh_v00 = refl
is_marker-strict server openssh_v00 = refl

marker_name-is_marker : (n : Bytes) → IsMarkerName n → is_marker (classify_kex_name n) ≡ true
unfolding classify_kex_name is_marker bytes_eq
marker_name-is_marker n ext_info_c = refl
marker_name-is_marker n ext_info_s = refl
marker_name-is_marker n (strict m) = is_marker-strict m.role m.spelling

-- A name of `kex_algorithms` is a marker, and so no method, exactly when it is `ext-info-c`,
-- `ext-info-s` or the name of one of the four strict-KEX markers.
pub is_marker_iff : (n : Bytes) → (is_marker (classify_kex_name n) ≡ true) ↔ IsMarkerName n
is_marker_iff n = (is_marker-inv n, marker_name-is_marker n)

abbrev pub other : StrictKexRole → StrictKexRole
other client = server
other server = client

opposite-inv : (r t : StrictKexRole) → opposite r t ≡ true → t ≡ other r
opposite-inv client client h = cc
opposite-inv client server h = refl
opposite-inv server client h = refl
opposite-inv server server h = cc

pub same_spelling-inv : (s t : StrictKexSpelling) → same_spelling s t ≡ true → t ≡ s
same_spelling-inv standard standard h = refl
same_spelling-inv standard openssh_v00 h = cc
same_spelling-inv openssh_v00 standard h = cc
same_spelling-inv openssh_v00 openssh_v00 h = refl

pairs-other :
    (r : StrictKexRole) (s : StrictKexSpelling)
    → pairs_with (record { role = r; spelling = s }) (record { role = other r; spelling = s })
      ≡ true
unfolding pairs_with
pairs-other client standard = refl
pairs-other client openssh_v00 = refl
pairs-other server standard = refl
pairs-other server openssh_v00 = refl

-- Two markers enable strict KEX exactly when the second has the other role and the same spelling.
pub pairs_with_iff :
    (m p : StrictKexMarker)
    → (pairs_with m p ≡ true) ↔ (p ≡ record { role = other m.role; spelling = m.spelling })
unfolding pairs_with
pairs_with_iff m p = (fwd, λ e. rw e (pairs-other m.role m.spelling))
  where
    fwd : pairs_with m p ≡ true → p ≡ record { role = other m.role; spelling = m.spelling }
    fwd h =
        let (a, b) = &&_inv (opposite m.role p.role) (same_spelling m.spelling p.spelling) h in
        rw (opposite-inv m.role p.role a, same_spelling-inv m.spelling p.spelling b) refl
