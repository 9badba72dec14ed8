-- ===== src/Prelude/Search.antt =====
-- The first element of a list that passes a test, and the elements that do.
use mathlib.Core.Path.{◌≡◌, refl, ap}
use mathlib.Core.Bool.{Bool, true, false, ◌&&◌}
use mathlib.Core.Option.{Option, none, some}
use mathlib.Core.List.{List, [], ◌∷◌, ◌++◌}
use mathlib.Core.Logic.{inl, inr}
use tatami_ssh.Prelude.Tests.{Bool-cases, if◌then◌else◌, if_elim}
use tatami_ssh.Prelude.Lists.{All}

ite_false : (a b : Bool) → (if a then true else b) ≡ false → (a ≡ false) × (b ≡ false)
ite_false true b h = absurd cc
ite_false false b h = (refl, h)

module _ {ℓ} {A : Type ℓ} where
  abbrev pub find : (A → Bool) → List A → Option A
  find test [] = none
  find test (x ∷ xs) = if test x then some x else find test xs

  abbrev pub filter : (A → Bool) → List A → List A
  filter test [] = []
  filter test (x ∷ xs) = if test x then x ∷ filter test xs else filter test xs

  abbrev pub any : (A → Bool) → List A → Bool
  any test [] = false
  any test (x ∷ xs) = if test x then true else any test xs

  pub any-cons_false :
      (test : A → Bool) (x : A) (xs : List A)
      → any test (x ∷ xs) ≡ false
      → (test x ≡ false) × (any test xs ≡ false)
  any-cons_false test x xs h = ite_false (test x) (any test xs) h

  -- Every element of the list fails the test, or `x` is the first one that passes it.
  pub data Picks (test : A → Bool) (xs : List A) : Option A → Type ℓ where
    nothing : All (λ x. test x ≡ false) xs → Picks test xs none
    first :
        (before : List A) (x : A) (after : List A)
        → xs ≡ before ++ (x ∷ after)
        → All (λ y. test y ≡ false) before
        → test x ≡ true
        → Picks test xs (some x)

  Picks-later :
      (test : A → Bool) (x : A) (xs : List A) (o : Option A)
      → test x ≡ false
      → Picks test xs o
      → Picks test (x ∷ xs) o
  Picks-later test x xs none h (nothing all) = nothing (h, all)
  Picks-later test x xs (some _) h (first before y after e all t) =
      first (x ∷ before) y after (ap (◌∷◌ x) e) (h, all) t

  pub find-Picks : (test : A → Bool) (xs : List A) → Picks test xs (find test xs)
  find-Picks test [] = nothing tt
  find-Picks test (x ∷ xs) =
      if_elim (Picks test (x ∷ xs)) (test x) (some x) (find test xs) (λ t. first [] x xs refl tt t)
        (λ h. Picks-later test x xs (find test xs) h (find-Picks test xs))

  pub find-filter :
      (p q : A → Bool) (xs : List A) → find p (filter q xs) ≡ find (λ x. q x && p x) xs
  find-filter p q [] = refl
  find-filter p q (x ∷ xs) = elim (Bool-cases (q x)) [
    | inl t ↦ rw t (ap (λ o. if p x then some x else o) (find-filter p q xs))
    | inr f ↦ rw f (find-filter p q xs)
  ]
