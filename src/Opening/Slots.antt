-- ===== src/Opening/Slots.antt =====
-- crates/tatami_ssh_connection/src/opening.rs: the bookkeeping of the slot table.
use tatami_ssh.Prelude.{
  ℕ, zero, suc, ◌+◌, ◌≤◌, ◌<◌, ◌≡◌, ◌≢◌, ◌^◌, refl, arith, none, some, List, [], ◌∷◌, ◌++◌, length,
  get_elem?, ◌==◌, ==_self, if◌then◌else◌,
}
use tatami_ssh.Opening.Types.{Slot, State, ChannelHandle}
use tatami_ssh.Opening.Engine.{update_at, filled, vacated, generation_at, live_state}
use tatami_ssh.Opening.Totals.{Weight, total, state_at}

abbrev pub occ : ℕ → List ℕ → ℕ
occ n [] = 0
occ n (x ∷ xs) = (if x == n then 1 else 0) + occ n xs

-- 1 where there is a slot with no state.
abbrev pub dead_at : List Slot → ℕ → ℕ
dead_at slots i = elim (get_elem? slots i) [
  | none ↦ 0
  | some slot ↦ elim slot.state [ none ↦ 1 | some _ ↦ 0 ]
]

abbrev pub w_live : Weight
w_live none = 0
w_live (some _) = 1

-- The table is consistent: `live` counts the live slots, the free stack holds each dead slot once,
-- and the limit on channels keeps every index below 2^32.
pub record SlotsInv (max live : ℕ) (free : List ℕ) (slots : List Slot) : Type 0 where
  pub live_count : live ≡ total w_live slots
  pub live_bound : live ≤ max
  pub limit_u32 : max ≤ 2 ^ 32
  pub free_dead : (i : ℕ) → occ i free ≡ dead_at slots i
  pub free_len : length free + live ≡ length slots
  pub slots_u32 : length slots ≤ 2 ^ 32
  pub generations_u32 : (i : ℕ) → generation_at slots i < 2 ^ 32

pub dead_at-inv :
    (slots : List Slot) (i : ℕ)
    → dead_at slots i ≢ 0
    → (i < length slots) × (state_at slots i ≡ none) × (dead_at slots i ≡ 1)
dead_at-inv [] i h = absurd (h refl)
dead_at-inv (slot ∷ slots) zero h = ground arith
dead_at-inv (slot ∷ slots) (suc i) h = let (a, b, c) = dead_at-inv slots i h in (omega arith, b, c)

pub dead_at-live :
    (slots : List Slot) (i : ℕ) (s : State) → state_at slots i ≡ some s → dead_at slots i ≡ 0
dead_at-live [] i s h = refl
dead_at-live (slot ∷ slots) zero s h = ground arith
dead_at-live (slot ∷ slots) (suc i) s h = dead_at-live slots i s h

pub dead_at-append :
    (slots : List Slot) (slot : Slot) (s : State) (i : ℕ)
    → slot.state ≡ some s
    → dead_at (slots ++ (slot ∷ [])) i ≡ dead_at slots i
dead_at-append [] slot s zero h = ground arith
dead_at-append [] slot s (suc i) h = refl
dead_at-append (x ∷ slots) slot s zero h = refl
dead_at-append (x ∷ slots) slot s (suc i) h = dead_at-append slots slot s i h

pub dead_at-update_ne :
    (f : Slot → Slot) (slots : List Slot) (i j : ℕ)
    → i ≢ j
    → dead_at (update_at f i slots) j ≡ dead_at slots j
unfolding update_at
dead_at-update_ne f [] i j h = refl
dead_at-update_ne f (slot ∷ slots) zero zero h = absurd (h refl)
dead_at-update_ne f (slot ∷ slots) zero (suc j) h = refl
dead_at-update_ne f (slot ∷ slots) (suc i) zero h = refl
dead_at-update_ne f (slot ∷ slots) (suc i) (suc j) h = dead_at-update_ne f slots i j (omega arith)

pub dead_at-vacated :
    (slots : List Slot) (i : ℕ) → i < length slots → dead_at (update_at vacated i slots) i ≡ 1
unfolding update_at
dead_at-vacated [] i h = absurd (omega arith)
dead_at-vacated (slot ∷ slots) zero h = refl
dead_at-vacated (slot ∷ slots) (suc i) h = dead_at-vacated slots i (omega arith)

pub dead_at-filled :
    (slots : List Slot) (i : ℕ) (s : State) → dead_at (update_at (filled s) i slots) i ≡ 0
unfolding update_at
dead_at-filled [] i s = refl
dead_at-filled (slot ∷ slots) zero s = refl
dead_at-filled (slot ∷ slots) (suc i) s = dead_at-filled slots i s

-- A handle that resolves names a live slot, by the slot's generation.
pub live_state-inv :
    (h : ChannelHandle) (s : State) (slots : List Slot) (i : ℕ)
    → live_state h (get_elem? slots i) ≡ some s
    → (i < length slots) × (state_at slots i ≡ some s)
unfolding live_state
live_state-inv h s [] i eq = cc
live_state-inv h s (slot ∷ slots) zero eq = ground arith
live_state-inv h s (slot ∷ slots) (suc i) eq =
    let (a, b) = live_state-inv h s slots i eq in (omega arith, b)

pub live_state-generation :
    (h : ChannelHandle) (s : State) (slots : List Slot) (i : ℕ)
    → live_state h (get_elem? slots i) ≡ some s
    → generation_at slots i ≡ h.generation
unfolding live_state
live_state-generation h s [] i eq = cc
live_state-generation h s (slot ∷ slots) zero eq = ground arith
live_state-generation h s (slot ∷ slots) (suc i) eq = live_state-generation h s slots i eq

-- A handle on a live slot with the slot's generation resolves.
pub live_state-slot :
    (h : ChannelHandle) (f : Slot → Slot) (s : State)
    → ((slot : Slot) → (f slot).state ≡ some s)
    → ((slot : Slot) → (f slot).generation ≡ slot.generation)
    → (slots : List Slot) (i : ℕ) → i < length slots
    → generation_at slots i ≡ h.generation
    → live_state h (get_elem? (update_at f i slots) i) ≡ some s
unfolding live_state update_at
live_state-slot h f s fs fg [] i lt g = absurd (omega arith)
live_state-slot h f s fs fg (slot ∷ slots) zero lt g =
    grind (arith, fs slot, fg slot, ==_self h.generation)
live_state-slot h f s fs fg (slot ∷ slots) (suc i) lt g =
    live_state-slot h f s fs fg slots i (omega arith) g
