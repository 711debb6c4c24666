-- ===== src/Setup/Filling.antt =====
-- The stack of free indices after `create_shm_all_drones_data`.
use mathlib.Core.Option
use so_lab_project.Prelude.{
  ℕ, zero, suc, ◌+◌, ◌-◌, ◌/◌, ◌-ℤ◌, [], ◌∷◌, ◌<◌, ◌≤◌, ◌≡◌, refl, sym, ap, ◌∙◌, some, none, List,
  pos, Option, arith, ltb, if◌then◌else◌, length, get_elem?, total, count, is_at,
}
use so_lab_project.Stack.{
  Status, Stack, success, error, IsValid, contents, full, push_elem, init_block,
}
use so_lab_project.Stack.Laws.{push_elem-room}
use so_lab_project.Shm.{DronData}
use so_lab_project.Shm.Consistency.{
  IsConsistent, live, vacant, in_base, count-snoc, vacant-live, in_base-le-live,
}
use so_lab_project.Dron.{Shared}
use so_lab_project.Shm.Books.{books}
use so_lab_project.Main.{lost_total}
use so_lab_project.Setup.{
  Settings, fill, initial_data, fill_initialised, create_shm_all_drones_data,
}

abbrev below : ℕ → ℕ → ℕ
below i n = if ltb i n then 1 else 0

below-suc : (i r : ℕ) → below i (suc r) ≡ below i r + is_at i r
below-suc i r = ground arith

-- With `r` pushes to go the loop ends, the stack is full, and it holds the `r` indices once each.
pub fill_lem :
    (r f : ℕ) (s : Stack ℕ)
    → IsValid s
    → s.size + r ≡ s.capacity
    → r < f
    → (s' : Stack ℕ) × (fill f s (r - 1) ≡ some s')
      × IsValid s'
      × (s'.capacity ≡ s.capacity)
      × (s'.size ≡ s.capacity)
      × ((i : ℕ) → count i (contents s') ≡ count i (contents s) + below i r)
unfolding fill full
fill_lem r zero s v e h = absurd (omega arith)
fill_lem zero (suc f) s v e h = (s, ground arith, v, refl, omega arith, λ i. ground arith)
fill_lem (suc r) (suc f) s v e h =
    let (st, stored, v', c', z') = push_elem-room s r v (omega arith) in
    let (s', run, valid, cap, size, counts) =
      fill_lem r f (push_elem s r).1 v' (omega (arith, c', z')) (omega arith) in
    (
      s',
      open_-fill ∙ run,
      valid,
      cap ∙ c',
      size ∙ c',
      λ i. omega (arith, counts i, ap (count i) stored, count-snoc i (contents s) r, below-suc i r),
    )
  where
    index : suc r - 1 ≡ r
    index = omega arith

    open_-fill : fill (suc f) s (suc r - 1) ≡ fill f (push_elem s r).1 (r - 1)
    open_-fill = rw index (ground arith)

vacant-unused :
    (l : List DronData) (i : ℕ) → total live l ≡ 0 → vacant (get_elem? l i) ≡ below i (length l)
unfolding total
vacant-unused [] i h = ground arith
vacant-unused (x ∷ l) zero h = ground (arith, vacant-live x)
vacant-unused (x ∷ l) (suc i) h = ground (arith, vacant-unused l i (omega arith))

in_base-unused : (l : List DronData) → total live l ≡ 0 → total in_base l ≡ 0
unfolding total
in_base-unused [] h = refl
in_base-unused (x ∷ l) h = omega (arith, in_base-le-live x, in_base-unused l (omega arith))

-- On zeroed segments of the right size, for at least one drone in memory, the set-up succeeds (the
-- loop ends within its fuel): every index is free once, all counters are 0, the limit is half the
-- starting drones less one, and the shared memory is consistent.
pub create_shm_all_drones_data-IsConsistent :
    (s : Settings) (block : List DronData) (st : Stack ℕ)
    → 0 < s.maximum_drones_in_memory
    → s.maximum_drones_in_memory ≤ 2500000
    → length block ≡ s.maximum_drones_in_memory
    → length st.cells ≡ s.maximum_drones_in_memory
    → total live block ≡ 0
    → (sh : Shared) × (create_shm_all_drones_data s block st ≡ some sh)
      × IsConsistent sh.all sh.free
      × (sh.all.capacity ≡ s.maximum_drones_in_memory)
      × (sh.free.size ≡ s.maximum_drones_in_memory)
      × (sh.all.dron_count ≡ pos 0)
      × (sh.all.dron_reserving_space_count ≡ pos 0)
      × (sh.all.maximum_dron_in_base_count ≡ pos (s.cfg.starting_drones_count / 2) -ℤ pos 1)
      × (sh.all.drones ≡ block)
unfolding create_shm_all_drones_data initial_data init_block fill_initialised count total
create_shm_all_drones_data-IsConsistent s block st hm hs hb hc hl =
    let m : ℕ = s.maximum_drones_in_memory in
    let (st', run, valid, cap, size, counts) =
      fill_lem m (m + 1) blank blank-IsValid (omega arith) (omega arith) in
    (
      record { all = initial_data s block; free = st' },
      ap (fill_initialised s block) initialised
          ∙ ap (Option.map (λ q. record { all = initial_data s block; free = q })) run,
      record {
        slots = hb;
        free_valid = valid;
        free_capacity = cap;
        counted = ap pos (sym hl);
        based = ap pos (sym (in_base-unused block hl));
        split = omega (arith, size, hl);
        unused = λ i. counts i ∙ rw (vacant-unused block i hl, hb) (omega arith);
      },
      refl,
      size,
      refl,
      refl,
      refl,
      refl,
    )
  where
    blank : Stack ℕ
    blank = record st { capacity = s.maximum_drones_in_memory; size = 0; elem_size = 4 }

    blank-IsValid : IsValid blank
    blank-IsValid = record { within = omega arith; room = hc; word = omega arith }

    initialised : init_block st s.maximum_drones_in_memory 4 ≡ (success, blank)
    initialised = ground arith

fill_initialised-all :
    (s : Settings) (block : List DronData) (r : Status × Stack ℕ) (sh : Shared)
    → fill_initialised s block r ≡ some sh
    → sh.all ≡ initial_data s block
unfolding fill_initialised
fill_initialised-all s block (error, st) sh e = cc
fill_initialised-all s block (success, st) sh e =
    mapped (fill (s.maximum_drones_in_memory + 1) st (s.maximum_drones_in_memory - 1)) e
  where
    mapped :
        (o : Option (Stack ℕ))
        → Option.map (λ q. record { all = initial_data s block; free = q }) o ≡ some sh
        → sh.all ≡ initial_data s block
    mapped none h = cc
    mapped (some q) h =
        ap (λ (z : Option Shared). elim z [ none ↦ sh.all | some y ↦ y.all ]) (sym h)

-- A set-up that succeeds has no drone there and none lost, and the first id is 1.
pub create_shm_all_drones_data-books :
    (s : Settings) (block : List DronData) (st : Stack ℕ) (sh : Shared)
    → create_shm_all_drones_data s block st ≡ some sh
    → books sh.all ≡ (pos 0, 0, 1)
unfolding create_shm_all_drones_data initial_data lost_total
create_shm_all_drones_data-books s block st sh e =
    ap (unfold lost_total in books)
      (fill_initialised-all s block (init_block st s.maximum_drones_in_memory 4) sh e)
