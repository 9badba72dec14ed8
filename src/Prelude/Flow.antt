-- ===== src/Prelude/Flow.antt =====
-- Rust's `Result`, and a computation on a mutable value that returns one. A method that takes
-- `&mut self` hands the value on in both outcomes, so what an error leaves behind is visible.
use mathlib.Core.Path.{◌≡◌, refl, sym}
use mathlib.Core.Logic.{◌⊎◌, inl, inr}

pub data Result {ℓ κ} (E : Type ℓ) (A : Type κ) : Type (ℓ ⊔ κ) where
  ok : A → Result E A
  err : E → Result E A

pub data Outcome {ℓ κ μ} (S : Type ℓ) (E : Type κ) (A : Type μ) : Type (ℓ ⊔ κ ⊔ μ) where
  done : A → S → Outcome S E A
  fail : E → S → Outcome S E A

module _ {ℓ κ μ ν} {S : Type ℓ} {E : Type κ} {A : Type μ} {B : Type ν} where
  abbrev pub and_then : Outcome S E A → (A → S → Outcome S E B) → Outcome S E B
  and_then (done a s) f = f a s
  and_then (fail e s) f = fail e s

  -- The `?` operator: an error ends the method with the value as it then stands.
  infixl 5 ◌>>=◌ ◌>>◌
  abbrev pub ◌>>=◌ : (S → Outcome S E A) → (A → S → Outcome S E B) → S → Outcome S E B
  ◌>>=◌ m f s = and_then (m s) f

  abbrev pub ◌>>◌ : (S → Outcome S E A) → (S → Outcome S E B) → S → Outcome S E B
  ◌>>◌ m k s = and_then (m s) (λ _. k)

  -- Inversion of a successful `?`.
  pub and_then-eq_done :
      (o : Outcome S E A) (f : A → S → Outcome S E B) {b : B} {t : S}
      → and_then o f ≡ done b t
      → (a : A) × (u : S) × (o ≡ done a u) × (f a u ≡ done b t)
  and_then-eq_done (done a u) f h = (a, u, refl, h)
  and_then-eq_done (fail x u) f h = cc

  -- A failure comes from the first part, or from the second after the first succeeded.
  pub and_then-eq_fail :
      (o : Outcome S E A) (f : A → S → Outcome S E B) {x : E} {t : S}
      → and_then o f ≡ fail x t
      → (o ≡ fail x t) ⊎ ((a : A) × (u : S) × (o ≡ done a u) × (f a u ≡ fail x t))
  and_then-eq_fail (done a u) f h = inr (a, u, refl, h)
  and_then-eq_fail (fail x u) f h = inl (cc)

abbrev pub pure {ℓ κ μ} : {S : Type ℓ} {E : Type κ} {A : Type μ} → A → S → Outcome S E A
pure a s = done a s

-- The method's result, with the value gone out of scope.
abbrev pub result {ℓ κ μ} : {S : Type ℓ} {E : Type κ} {A : Type μ} → Outcome S E A → Result E A
result (done a s) = ok a
result (fail e s) = err e

abbrev pub final {ℓ κ μ} : {S : Type ℓ} {E : Type κ} {A : Type μ} → Outcome S E A → S
final (done a s) = s
final (fail e s) = s

-- A failure leaves the value as it was before the call.
pub data Unchanged {ℓ κ μ} {S : Type ℓ} {E : Type κ} {A : Type μ} (s : S)
    : Outcome S E A → Type (ℓ ⊔ κ ⊔ μ) where
  passing : (a : A) (s' : S) → Unchanged s (done a s')
  failing : (e : E) → Unchanged s (fail e s)

pub Unchanged-of {ℓ κ μ} :
    {S : Type ℓ} {E : Type κ} {A : Type μ} (s : S) (o : Outcome S E A)
    → ((e : E) (s' : S) → o ≡ fail e s' → s' ≡ s)
    → Unchanged s o
Unchanged-of s (done a s') h = passing a s'
Unchanged-of s (fail e s') h = rw (sym (h e s' refl)) (failing e)
