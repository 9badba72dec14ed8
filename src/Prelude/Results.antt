-- ===== src/Prelude/Results.antt =====
-- `Option::ok_or` and the `?` operator on a plain `Result`.
use mathlib.Core.Path.{◌≡◌, refl}
use mathlib.Core.Option.{Option, none, some}
use tatami_ssh.Prelude.Flow.{Result, ok, err}

abbrev pub ok_or {ℓ κ} : {A : Type ℓ} {E : Type κ} → Option A → E → Result E A
ok_or none e = err e
ok_or (some a) e = ok a

infixl 5 ◌>>=◌
abbrev pub ◌>>=◌ {ℓ κ μ} :
    {E : Type ℓ} {A : Type κ} {B : Type μ} → Result E A → (A → Result E B) → Result E B
◌>>=◌ (ok a) f = f a
◌>>=◌ (err e) f = err e

-- `o.ok_or(e)?` followed by `f`: a property of the result on both branches.
pub ok_or_elim {ℓ κ μ ν} :
    {E : Type ℓ} {A : Type κ} {B : Type μ} (P : Result E B → Type ν) (o : Option A) (e : E)
    (f : A → Result E B)
    → (o ≡ none → P (err e))
    → ((a : A) → o ≡ some a → P (f a))
    → P (ok_or o e >>= f)
ok_or_elim P none e f x y = x refl
ok_or_elim P (some a) e f x y = y a refl
