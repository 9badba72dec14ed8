-- ===== src/Prelude/Found.antt =====
-- What a search finds, as a predicate on the elements.
use mathlib.Core.Path.{◌≡◌, refl, ap, subst, ◌∙◌}
use mathlib.Core.Logic.{◌↔◌, inl, inr}
use mathlib.Core.Bool.{Bool, true, false}
use mathlib.Core.Option.{Option, none, some}
use mathlib.Core.List.{List, [], ◌∷◌, ◌++◌, Memᴰ}
use mathlib.Core.List.Memᴰ.{head, tail}
use tatami_ssh.Prelude.Tests.{Bool-cases}
use tatami_ssh.Prelude.Lists.{All}
use tatami_ssh.Prelude.Search.{find, filter, any, Picks, nothing, first, find-Picks}

module _ {ℓ κ} {A : Type ℓ} where
  -- `x` is the first element of `xs` in `P`.
  pub record Chosen (P : A → Type κ) (xs : List A) (x : A) : Type (ℓ ⊔ κ) where
    pub before : List A
    pub after : List A
    pub split : xs ≡ before ++ (x ∷ after)
    pub skipped : All (λ y. ¬ P y) before
    pub holds : P x

  abbrev pub NoneOf : (A → Type κ) → List A → Type κ
  NoneOf P xs = All (λ y. ¬ P y) xs

  abbrev pub Decides : (A → Bool) → (A → Type κ) → Type (ℓ ⊔ κ)
  Decides test P = (x : A) → (test x ≡ true) ↔ P x

  fails :
      (test : A → Bool) (P : A → Type κ) (xs : List A)
      → Decides test P
      → All (λ x. test x ≡ false) xs
      → NoneOf P xs
  fails test P [] d h = tt
  fails test P (x ∷ xs) d h =
      ((λ p. let t : test x ≡ true = (d x).1 p in cc), fails test P xs d h.1)

  pub find-Chosen :
      (test : A → Bool) (P : A → Type κ) (xs : List A)
      → Decides test P
      → (x : A) → find test xs ≡ some x
      → Chosen P xs x
  find-Chosen test P xs d x e = of_picks (find test xs) (find-Picks test xs) e
    where
      of_picks : (o : Option A) → Picks test xs o → o ≡ some x → Chosen P xs x
      of_picks none (nothing all) e = absurd cc
      of_picks (some _) (first before y after split all t) e =
          let same : y ≡ x = cc in
          subst (Chosen P xs) same (record {
            before = before;
            after = after;
            split = split;
            skipped = fails test P before d all;
            holds = (d y).0 t;
          })

  pub find-NoneOf :
      (test : A → Bool) (P : A → Type κ) (xs : List A)
      → Decides test P
      → find test xs ≡ none
      → NoneOf P xs
  find-NoneOf test P xs d e = of_picks (find test xs) (find-Picks test xs) e
    where
      of_picks : (o : Option A) → Picks test xs o → o ≡ none → NoneOf P xs
      of_picks none (nothing all) e = fails test P xs d all
      of_picks (some _) (first before y after split all t) e = absurd cc

  -- `any` finds an element in `P`.
  pub any_iff :
      (test : A → Bool) (P : A → Type κ) (xs : List A)
      → Decides test P
      → (any test xs ≡ true) ↔ ((x : A) × Memᴰ x xs × P x)
  any_iff test P [] d = ((λ h. absurd cc), λ (x, m, p). elim m [ ])
  any_iff test P (x ∷ xs) d =
      let ih = any_iff test P xs d in
      elim (Bool-cases (test x)) [
        | inl t ↦ rw t ((λ _. (x, head refl, (d x).0 t)), λ _. refl)
        | inr f ↦
            rw f ((λ h. let (y, m, p) = ih.0 h in (y, tail m, p)), λ (y, m, p). later ih y m p f)
      ]
    where
      later :
          ((any test xs ≡ true) ↔ ((x : A) × Memᴰ x xs × P x))
          → (y : A) → Memᴰ y (x ∷ xs)
          → P y
          → test x ≡ false
          → any test xs ≡ true
      later ih y (head e) p f =
          let t : test y ≡ true = (d y).1 p in let g : test y ≡ false = ap test e ∙ f in absurd cc
      later ih y (tail m) p f = ih.1 (y, m, p)

module _ {ℓ} {A : Type ℓ} where
  pub filter_mem :
      (test : A → Bool) (xs : List A) (x : A)
      → Memᴰ x (filter test xs) ↔ (Memᴰ x xs × (test x ≡ true))
  filter_mem test [] x = ((λ m. elim m [ ]), λ (m, t). elim m [ ])
  filter_mem test (y ∷ ys) x =
      let ih = filter_mem test ys x in
      elim (Bool-cases (test y)) [
        | inl t ↦ rw t (kept ih t, λ (m, h). keep ih m h)
        | inr f ↦ rw f ((λ m. let (n, h) = ih.0 m in (tail n, h)), λ (m, h). dropped ih m h f)
      ]
    where
      kept :
          (Memᴰ x (filter test ys) ↔ (Memᴰ x ys × (test x ≡ true)))
          → test y ≡ true
          → Memᴰ x (y ∷ filter test ys)
          → Memᴰ x (y ∷ ys) × (test x ≡ true)
      kept ih t (head e) = (head e, ap test e ∙ t)
      kept ih t (tail m) = let (n, h) = ih.0 m in (tail n, h)

      keep :
          (Memᴰ x (filter test ys) ↔ (Memᴰ x ys × (test x ≡ true)))
          → Memᴰ x (y ∷ ys)
          → test x ≡ true
          → Memᴰ x (y ∷ filter test ys)
      keep ih (head e) h = head e
      keep ih (tail m) h = tail (ih.1 (m, h))

      dropped :
          (Memᴰ x (filter test ys) ↔ (Memᴰ x ys × (test x ≡ true)))
          → Memᴰ x (y ∷ ys)
          → test x ≡ true
          → test y ≡ false
          → Memᴰ x (filter test ys)
      dropped ih (head e) h f = let g : test x ≡ false = ap test e ∙ f in absurd cc
      dropped ih (tail m) h f = ih.1 (m, h)
