-- ===== src/Opening/Table.antt =====
-- crates/tatami_ssh_connection/src/opening.rs: the slot table under `insert`.
use tatami_ssh.Prelude.{
  ℕ, zero, suc, ◌+◌, ◌<◌, ◌≡◌, ◌≢◌, ◌^◌, ◌%◌, refl, arith, none, some, List, [], ◌∷◌, ◌++◌, length,
  get_elem?, ◌==◌, ==_iff, ==_self, if◌then◌else◌, length-append, Bool-cases, inl, inr, sym,
}
use tatami_ssh.Opening.Types.{Slot, State, ChannelHandle}
use tatami_ssh.Opening.Engine.{update_at, filled, generation_at, live_state, insert_slots}
use tatami_ssh.Opening.Totals.{
  Weight, total, state_at, total-update_at, total-append, length-update_at,
}
use tatami_ssh.Opening.Slots.{
  SlotsInv, occ, dead_at, w_live, dead_at-inv, dead_at-append, dead_at-update_ne, dead_at-filled,
  live_state-slot,
}

pub generation_at-update_at :
    (f : Slot → Slot)
    → ((slot : Slot) → slot.generation < 2 ^ 32 → (f slot).generation < 2 ^ 32)
    → (slots : List Slot) (i j : ℕ) → ((k : ℕ) → generation_at slots k < 2 ^ 32)
    → generation_at (update_at f i slots) j < 2 ^ 32
unfolding update_at
generation_at-update_at f fg [] i j h = h j
generation_at-update_at f fg (slot ∷ slots) zero zero h = fg slot (h 0)
generation_at-update_at f fg (slot ∷ slots) zero (suc j) h = h (suc j)
generation_at-update_at f fg (slot ∷ slots) (suc i) zero h = h 0
generation_at-update_at f fg (slot ∷ slots) (suc i) (suc j) h =
    generation_at-update_at f fg slots i j (λ k. h (suc k))

generation_at-append :
    (slots : List Slot) (slot : Slot) (j : ℕ)
    → slot.generation < 2 ^ 32
    → ((k : ℕ) → generation_at slots k < 2 ^ 32)
    → generation_at (slots ++ (slot ∷ [])) j < 2 ^ 32
generation_at-append [] slot zero g h = g
generation_at-append [] slot (suc j) g h = omega arith
generation_at-append (x ∷ slots) slot zero g h = h 0
generation_at-append (x ∷ slots) slot (suc j) g h =
    generation_at-append slots slot j g (λ k. h (suc k))

-- Stacks and slots under `insert` at a free index: the index is dead, and it is there once.
free-dead :
    (index : ℕ) (rest : List ℕ) (slots : List Slot)
    → ((i : ℕ) → occ i (index ∷ rest) ≡ dead_at slots i)
    → (index < length slots) × (state_at slots index ≡ none) × (occ index rest ≡ 0)
free-dead index rest slots h =
    let self = ==_self index in
    let head = h index in
    let here : 1 + occ index rest ≡ dead_at slots index = grind (arith, self, head) in
    let (a, b, c) = dead_at-inv slots index (omega arith) in (a, b, omega arith)

occ-filled :
    (s : State) (index : ℕ) (rest : List ℕ) (slots : List Slot)
    → ((i : ℕ) → occ i (index ∷ rest) ≡ dead_at slots i)
    → (i : ℕ) → occ i rest ≡ dead_at (update_at (filled s) index slots) i
occ-filled s index rest slots h i = elim (Bool-cases (index == i)) [
  | inl e ↦
      let same : index ≡ i = (==_iff index i).0 e in
      let (_, _, gone) = free-dead index rest slots h in
      let zero_now = dead_at-filled slots index s in rw (sym same, gone, zero_now) refl
  | inr e ↦
      let other : index ≢ i = λ same. cc (e, (==_iff index i).1 same) in
      let now = dead_at-update_ne (filled s) slots index i other in
      let before : (if index == i then 1 else 0) + occ i rest ≡ dead_at slots i = h i in
      grind (arith, now, before, e)
]

-- What `insert` does to the table: every sum that ignores dead slots grows by the new state, the
-- new handle resolves to it, and the bookkeeping is kept.
pub record Inserted (s : State) (max live : ℕ) (slots : List Slot)
    (r : ChannelHandle × List ℕ × List Slot) : Type 0 where
  pub totals : (w : Weight) → w none ≡ 0 → total w r.2 ≡ total w slots + w (some s)
  pub kept : SlotsInv max (live + 1) r.1 r.2
  pub resolves : live_state r.0 (get_elem? r.2 r.0.index) ≡ some s

totals-filled :
    (s : State) (index : ℕ) (rest : List ℕ) (slots : List Slot)
    → ((i : ℕ) → occ i (index ∷ rest) ≡ dead_at slots i)
    → (w : Weight) → w none ≡ 0
    → total w (update_at (filled s) index slots) ≡ total w slots + w (some s)
totals-filled s index rest slots h w w0 =
    let (lt, empty, _) = free-dead index rest slots h in
    let sum = total-update_at w (filled s) (some s) (λ slot. refl) slots index lt in
    let old : w (state_at slots index) ≡ 0 = rw empty w0 in omega arith

totals-append :
    (s : State) (slots : List Slot) (w : Weight)
    → total w (slots ++ (record { generation = 0; state = some s } ∷ []))
      ≡ total w slots + w (some s)
totals-append s slots w = total-append w slots (record { generation = 0; state = some s })

resolves-append :
    (s : State) (slots : List Slot) (h : ChannelHandle)
    → h.generation ≡ 0
    → live_state h
        (get_elem? (slots ++ (record { generation = 0; state = some s } ∷ [])) (length slots))
      ≡ some s
unfolding live_state
resolves-append s [] h g = rw g refl
resolves-append s (slot ∷ slots) h g = resolves-append s slots h g

-- Below the limit `insert` is right, whether it takes a free index or a new one.
pub insert_slots-Inserted :
    (s : State) (max live : ℕ) (free : List ℕ) (slots : List Slot)
    → SlotsInv max live free slots
    → live < max
    → Inserted s max live slots (insert_slots s free slots)
unfolding insert_slots
insert_slots-Inserted s max live (index ∷ rest) slots inv lt =
    let (below, empty, once) = free-dead index rest slots inv.free_dead in
    let sums = totals-filled s index rest slots inv.free_dead in
    let len = length-update_at (filled s) index slots in
    record {
      totals = sums;
      kept = record {
        live_count = omega (arith, inv.live_count, sums w_live refl);
        live_bound = omega arith;
        limit_u32 = inv.limit_u32;
        free_dead = occ-filled s index rest slots inv.free_dead;
        free_len = omega (arith, inv.free_len);
        slots_u32 = omega (arith, inv.slots_u32);
        generations_u32 =
            λ j. generation_at-update_at (filled s) (λ slot g. g) slots index j inv.generations_u32;
      };
      resolves =
          live_state-slot (record { index = index; generation = generation_at slots index })
            (filled s) s (λ slot. refl) (λ slot. refl) slots index below refl;
    }
insert_slots-Inserted s max live [] slots inv lt =
    let len = length-append slots (record { generation = 0; state = some s } ∷ []) in
    let short : length slots < 2 ^ 32 = omega (arith, inv.free_len, inv.limit_u32) in
    let same : length slots % 2 ^ 32 ≡ length slots = omega arith in
    record {
      totals = λ w w0. totals-append s slots w;
      kept = record {
        live_count = omega (arith, inv.live_count, totals-append s slots w_live);
        live_bound = omega arith;
        limit_u32 = inv.limit_u32;
        free_dead = λ i. cc (
          inv.free_dead i,
          dead_at-append slots (record { generation = 0; state = some s }) s i refl,
        );
        free_len = omega (arith, inv.free_len);
        slots_u32 = omega arith;
        generations_u32 = λ j. generation_at-append slots _ j (omega arith) inv.generations_u32;
      };
      resolves = rw same (resolves-append s slots _ refl);
    }
