-- ===== src/Opening/Vacate.antt =====
-- crates/tatami_ssh_connection/src/opening.rs: the slot table under `remove`, and under a new state
-- in a live slot.
use tatami_ssh.Prelude.{
  ℕ, zero, suc, ◌+◌, ◌-◌, ◌≤◌, ◌<◌, ◌≡◌, ◌≢◌, refl, arith, none, some, List, [], ◌∷◌, length,
  get_elem?, ◌==◌, ==_iff, ==_self, if◌then◌else◌, ap, sym, subst, ◌∙◌, Bool-cases, inl, inr,
}
use tatami_ssh.Opening.Types.{Slot, State, ChannelHandle}
use tatami_ssh.Opening.Engine.{update_at, filled, vacated, live_state}
use tatami_ssh.Opening.Totals.{Weight, total, state_at, total-update_at, length-update_at}
use tatami_ssh.Opening.Slots.{
  SlotsInv, occ, dead_at, w_live, dead_at-live, dead_at-update_ne, dead_at-vacated, dead_at-filled,
  live_state-slot, live_state-inv, live_state-generation,
}
use tatami_ssh.Opening.Table.{generation_at-update_at}

occ-vacated :
    (i : ℕ) (s : State) (free : List ℕ) (slots : List Slot)
    → i < length slots
    → state_at slots i ≡ some s
    → ((j : ℕ) → occ j free ≡ dead_at slots j)
    → (j : ℕ) → occ j (i ∷ free) ≡ dead_at (update_at vacated i slots) j
occ-vacated i s free slots lt here h j = elim (Bool-cases (i == j)) [
  | inl e ↦
      let same : i ≡ j = (==_iff i j).0 e in
      let was = dead_at-live slots i s here in
      let now = dead_at-vacated slots i lt in
      let self = ==_self i in
      let before = h i in
      let here : (if i == i then 1 else 0) + occ i free ≡ dead_at (update_at vacated i slots) i =
        grind (arith, self, was, now, before) in
      subst (λ x. occ x (i ∷ free) ≡ dead_at (update_at vacated i slots) x) same here
  | inr e ↦
      let other : i ≢ j = λ same. cc (e, (==_iff i j).1 same) in
      let now = dead_at-update_ne vacated slots i j other in
      let before = h j in grind (arith, now, before, e)
]

-- What `remove` does to the table: every sum that ignores dead slots loses the old state, the
-- handle is stale from there on, and the bookkeeping is kept.
pub record Removed (h : ChannelHandle) (s : State) (max live : ℕ) (free : List ℕ)
    (slots : List Slot) : Type 0 where
  pub totals :
      (w : Weight)
      → w none ≡ 0
      → total w (update_at vacated h.index slots) + w (some s) ≡ total w slots
  pub kept : SlotsInv max (live - 1) (h.index ∷ free) (update_at vacated h.index slots)
  pub stale : live_state h (get_elem? (update_at vacated h.index slots) h.index) ≡ none
  pub counted : 1 ≤ live

vacated-stale :
    (h : ChannelHandle) (slots : List Slot) (i : ℕ)
    → live_state h (get_elem? (update_at vacated i slots) i) ≡ none
unfolding live_state update_at
vacated-stale h [] i = refl
vacated-stale h (slot ∷ slots) zero = ground arith
vacated-stale h (slot ∷ slots) (suc i) = vacated-stale h slots i

pub remove-Removed :
    (h : ChannelHandle) (s : State) (max live : ℕ) (free : List ℕ) (slots : List Slot)
    → SlotsInv max live free slots
    → live_state h (get_elem? slots h.index) ≡ some s
    → Removed h s max live free slots
remove-Removed h s max live free slots inv eq =
    let (lt, here) = live_state-inv h s slots h.index eq in
    let sum = λ (w : Weight). total-update_at w vacated none (λ slot. refl) slots h.index lt in
    let at = λ (w : Weight). ap w here in
    let live_now = sum w_live in
    let live_here = at w_live in
    let len = length-update_at vacated h.index slots in
    record {
      totals = λ w w0. let a = sum w in let b = at w in omega arith;
      kept = record {
        live_count = omega (arith, inv.live_count);
        live_bound = omega (arith, inv.live_bound);
        limit_u32 = inv.limit_u32;
        free_dead = occ-vacated h.index s free slots lt here inv.free_dead;
        free_len = omega (arith, inv.free_len, inv.live_count);
        slots_u32 = omega (arith, inv.slots_u32);
        generations_u32 = λ j.
            generation_at-update_at vacated (λ slot g. omega arith) slots h.index j
              inv.generations_u32;
      };
      stale = vacated-stale h slots h.index;
      counted = omega (arith, inv.live_count);
    }

-- What a new state in a live slot does to the table.
pub record Changed (h : ChannelHandle) (s s' : State) (max live : ℕ) (free : List ℕ)
    (slots : List Slot) : Type 0 where
  pub totals :
      (w : Weight)
      → total w (update_at (filled s') h.index slots) + w (some s) ≡ total w slots + w (some s')
  pub kept : SlotsInv max live free (update_at (filled s') h.index slots)
  pub resolves : live_state h (get_elem? (update_at (filled s') h.index slots) h.index) ≡ some s'

dead-filled :
    (i : ℕ) (s s' : State) (slots : List Slot)
    → state_at slots i ≡ some s
    → (j : ℕ) → dead_at slots j ≡ dead_at (update_at (filled s') i slots) j
dead-filled i s s' slots here j = elim (Bool-cases (i == j)) [
  | inl e ↦
      let same : i ≡ j = (==_iff i j).0 e in
      rw (sym same, dead_at-live slots i s here, dead_at-filled slots i s') refl
  | inr e ↦
      let other : i ≢ j = λ same. cc (e, (==_iff i j).1 same) in
      sym (dead_at-update_ne (filled s') slots i j other)
]

pub set_slot-Changed :
    (h : ChannelHandle) (s s' : State) (max live : ℕ) (free : List ℕ) (slots : List Slot)
    → SlotsInv max live free slots
    → live_state h (get_elem? slots h.index) ≡ some s
    → Changed h s s' max live free slots
set_slot-Changed h s s' max live free slots inv eq =
    let (lt, here) = live_state-inv h s slots h.index eq in
    let sum =
      λ (w : Weight). total-update_at w (filled s') (some s') (λ slot. refl) slots h.index lt in
    let at = λ (w : Weight). ap w here in
    let live_now = sum w_live in
    let live_here = at w_live in
    let len = length-update_at (filled s') h.index slots in
    record {
      totals = λ w. let a = sum w in let b = at w in omega arith;
      kept = record {
        live_count = omega (arith, inv.live_count);
        live_bound = inv.live_bound;
        limit_u32 = inv.limit_u32;
        free_dead = λ j. inv.free_dead j ∙ dead-filled h.index s s' slots here j;
        free_len = omega (arith, inv.free_len);
        slots_u32 = omega (arith, inv.slots_u32);
        generations_u32 = λ j.
            generation_at-update_at (filled s') (λ slot g. g) slots h.index j inv.generations_u32;
      };
      resolves =
          live_state-slot h (filled s') s' (λ slot. refl) (λ slot. refl) slots h.index lt
            (live_state-generation h s slots h.index eq);
    }
