-- ===== src/Opening/Totals.antt =====
-- crates/tatami_ssh_connection/src/opening.rs: sums over the slots of an engine.
use tatami_ssh.Prelude.{
  ℕ, zero, suc, ◌+◌, ◌≤◌, ◌<◌, ◌≡◌, ◌≢◌, ap, refl, arith, Option, none, some, List, [], ◌∷◌, ◌++◌,
  length, get_elem?,
}
use tatami_ssh.Opening.Types.{Slot, State}
use tatami_ssh.Opening.Engine.{update_at}

abbrev pub Weight : Type 0
Weight = Option State → ℕ

unfoldable pub total : Weight → List Slot → ℕ
total w [] = 0
total w (slot ∷ slots) = w slot.state + total w slots

abbrev pub state_at : List Slot → ℕ → Option State
state_at slots i = elim (get_elem? slots i) [ none ↦ none | some slot ↦ slot.state ]

pub total-update_at :
    (w : Weight) (f : Slot → Slot) (s : Option State)
    → ((slot : Slot) → (f slot).state ≡ s)
    → (slots : List Slot) (i : ℕ) → i < length slots
    → total w (update_at f i slots) + w (state_at slots i) ≡ total w slots + w s
unfolding total update_at
total-update_at w f s fs [] i h = absurd (omega arith)
total-update_at w f s fs (slot ∷ slots) zero h = rw fs (omega arith)
total-update_at w f s fs (slot ∷ slots) (suc i) h =
    omega (arith, total-update_at w f s fs slots i (omega arith))

pub total-append :
    (w : Weight) (slots : List Slot) (slot : Slot)
    → total w (slots ++ (slot ∷ [])) ≡ total w slots + w slot.state
unfolding total
total-append w [] slot = omega arith
total-append w (x ∷ slots) slot = omega (arith, total-append w slots slot)

pub length-update_at :
    (f : Slot → Slot) (i : ℕ) (slots : List Slot) → length (update_at f i slots) ≡ length slots
unfolding update_at
length-update_at f i [] = refl
length-update_at f zero (slot ∷ slots) = refl
length-update_at f (suc i) (slot ∷ slots) = omega (arith, length-update_at f i slots)

pub state_at-update_self :
    (f : Slot → Slot) (s : Option State)
    → ((slot : Slot) → (f slot).state ≡ s)
    → (slots : List Slot) (i : ℕ) → i < length slots
    → state_at (update_at f i slots) i ≡ s
unfolding update_at
state_at-update_self f s fs [] i h = absurd (omega arith)
state_at-update_self f s fs (slot ∷ slots) zero h = fs slot
state_at-update_self f s fs (slot ∷ slots) (suc i) h =
    state_at-update_self f s fs slots i (omega arith)

pub state_at-update_ne :
    (f : Slot → Slot) (slots : List Slot) (i j : ℕ)
    → i ≢ j
    → state_at (update_at f i slots) j ≡ state_at slots j
unfolding update_at
state_at-update_ne f [] i j h = refl
state_at-update_ne f (slot ∷ slots) zero zero h = absurd (h refl)
state_at-update_ne f (slot ∷ slots) zero (suc j) h = refl
state_at-update_ne f (slot ∷ slots) (suc i) zero h = refl
state_at-update_ne f (slot ∷ slots) (suc i) (suc j) h =
    state_at-update_ne f slots i j (λ e. h (ap suc e))

-- A weight at a slot is part of its total.
pub weight-le-total :
    (w : Weight) (slots : List Slot) (i : ℕ)
    → i < length slots
    → w (state_at slots i) ≤ total w slots
unfolding total
weight-le-total w [] i h = absurd (omega arith)
weight-le-total w (slot ∷ slots) zero h = omega arith
weight-le-total w (slot ∷ slots) (suc i) h = omega (arith, weight-le-total w slots i (omega arith))
